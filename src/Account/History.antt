-- ===== src/Account/History.antt =====
-- Sequences of actions on an account of crates/shielder-account/src/lib.rs.
use zk_os_monorepo.Base.{
  ◌≡◌, ap, ◌∙◌, Option, none, some, List, [], ◌∷◌, ◌++◌, arith, Option-cases, inl, inr,
}
use mathlib.Core.List.{append_assoc, append-nil}
use mathlib.Core.Path.{subst}
use mathlib.Core.Option.{some-injective}
use zk_os_monorepo.Account.Action.{ShielderAction}
use zk_os_monorepo.Account.State.{ShielderAccount, register_action}
use zk_os_monorepo.Account.Balance.{IsConsistent, register_action-IsConsistent}

-- A run of `register_action`, which panics with the first call that does.
unfoldable pub register_all : ShielderAccount → List ShielderAction → Option ShielderAccount
register_all account [] = some account
register_all account (x ∷ xs) = elim (register_action account x) [
  | none ↦ none
  | some next ↦ register_all next xs
]

register_action_appends :
    (account after : ShielderAccount) (x : ShielderAction)
    → register_action account x ≡ some after
    → after.history ≡ account.history ++ x ∷ []
unfolding register_action
register_action_appends account after x e = ground arith

pub register_all_appends :
    (account after : ShielderAccount) (xs : List ShielderAction)
    → register_all account xs ≡ some after
    → after.history ≡ account.history ++ xs
unfolding register_all
register_all_appends account after [] e = ground (arith, append-nil account.history)
register_all_appends account after (x ∷ xs) e = elim (Option-cases (register_action account x)) [
  | inl failed ↦ cc (rw (failed, register_all) at e)
  | inr (next, passed) ↦
      register_all_appends next after xs (rw (passed, register_all) at e)
      ∙ ap (λ h. h ++ xs) (register_action_appends account next x passed)
      ∙ append_assoc account.history (x ∷ []) xs
]

-- An account that a run of actions made from a fresh one is made again by a run of its history.
pub register_all-history :
    (fresh account : ShielderAccount) (xs : List ShielderAction)
    → fresh.history ≡ []
    → register_all fresh xs ≡ some account
    → register_all fresh account.history ≡ some account
register_all-history fresh account xs empty e =
    ap (register_all fresh) (register_all_appends fresh account xs e ∙ ap (λ h. h ++ xs) empty) ∙ e

-- From a consistent account every run that does not panic ends in a consistent account.
pub register_all-IsConsistent :
    (account after : ShielderAccount) (xs : List ShielderAction)
    → IsConsistent account
    → register_all account xs ≡ some after
    → IsConsistent after
unfolding register_all
register_all-IsConsistent account after [] c e = subst IsConsistent (some-injective _ _ e) c
register_all-IsConsistent account after (x ∷ xs) c e =
    elim (Option-cases (register_action account x)) [
      | inl failed ↦ cc (rw (failed, register_all) at e)
      | inr (next, passed) ↦
          register_all-IsConsistent next after xs
            (register_action-IsConsistent account next x c passed) (rw (passed, register_all) at e)
    ]
