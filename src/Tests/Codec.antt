-- ===== src/Tests/Codec.antt =====
-- An encoding of the client's state as numbers that loses nothing.
use zk_os_monorepo.Base.{ℕ, zero, suc, ◌≡◌, refl, Option, none, some, List, [], ◌∷◌, length, arith}
use zk_os_monorepo.Token.{Token, native, erc20}
use zk_os_monorepo.Account.Action.{ShielderAction, ShielderTxData}
use zk_os_monorepo.Account.State.{ShielderAccount}
use zk_os_monorepo.Client.{ClientState, ProtocolFees}
use zk_os_monorepo.Client.App.{AppState}

-- A value before some numbers, and back.
pub record Codec (T : Type 0) : Type 0 where
  pub put : T → List ℕ → List ℕ
  pub get : List ℕ → Option (T × List ℕ)
  pub back : (t : T) (rest : List ℕ) → get (put t rest) ≡ some (t, rest)

abbrev pub get_number : List ℕ → Option (ℕ × List ℕ)
get_number [] = none
get_number (n ∷ rest) = some (n, rest)

abbrev pub number : Codec ℕ
number = record { put = λ n rest. n ∷ rest; get = get_number; back = λ n rest. refl }

abbrev pub get_mapped : {T U : Type 0} → Codec U → (U → T) → List ℕ → Option (T × List ℕ)
get_mapped c from xs = elim (c.get xs) [ none ↦ none | some (u, rest) ↦ some (from u, rest) ]

pub mapped_back :
    {T U : Type 0} (c : Codec U) (to : T → U) (from : U → T) (h : (t : T) → from (to t) ≡ t) (t : T)
    (rest : List ℕ)
    → ◌≡◌ {A = Option (T × List ℕ)} (get_mapped c from (c.put (to t) rest)) (some (t, rest))
mapped_back c to from h t rest = ground (arith, c.back (to t) rest, h t)

-- A type whose values are kept as those of another.
abbrev pub mapped :
    {T U : Type 0} (c : Codec U) (to : T → U) (from : U → T) → ((t : T) → from (to t) ≡ t) → Codec T
mapped c to from h = record {
  put = λ t rest. c.put (to t) rest;
  get = get_mapped c from;
  back = mapped_back c to from h;
}

abbrev pub get_pair : {T U : Type 0} → Codec T → Codec U → List ℕ → Option ((T × U) × List ℕ)
get_pair a b xs = elim (a.get xs) [
  | none ↦ none
  | some (t, more) ↦ elim (b.get more) [ none ↦ none | some (u, rest) ↦ some ((t, u), rest) ]
]

pub pair_back :
    {T U : Type 0} (a : Codec T) (b : Codec U) (t : T × U) (rest : List ℕ)
    → ◌≡◌ {A = Option ((T × U) × List ℕ)}
        (get_pair a b (a.put t.0 (b.put t.1 rest)))
        (some (t, rest))
pair_back a b t rest = ground (arith, a.back t.0 (b.put t.1 rest), b.back t.1 rest)

infixr 5 ◌&◌
abbrev pub ◌&◌ : {T U : Type 0} → Codec T → Codec U → Codec (T × U)
a & b = record {
  put = λ t rest. a.put t.0 (b.put t.1 rest);
  get = get_pair a b;
  back = pair_back a b;
}

module _ {T : Type 0} (c : Codec T) where
  abbrev pub put_all : List T → List ℕ → List ℕ
  put_all [] rest = rest
  put_all (t ∷ ts) rest = c.put t (put_all ts rest)

  abbrev pub get_all : ℕ → List ℕ → Option (List T × List ℕ)
  get_all zero xs = some ([], xs)
  get_all (suc n) xs = elim (c.get xs) [
    | none ↦ none
    | some (t, more) ↦ elim (get_all n more) [ none ↦ none | some (ts, rest) ↦ some (t ∷ ts, rest) ]
  ]

  pub all_back :
      (ts : List T) (rest : List ℕ) → get_all (length ts) (put_all ts rest) ≡ some (ts, rest)
  all_back [] rest = refl
  all_back (t ∷ ts) rest = ground (arith, c.back t (put_all ts rest), all_back ts rest)

  abbrev pub get_list : List ℕ → Option (List T × List ℕ)
  get_list [] = none
  get_list (n ∷ xs) = get_all n xs

  abbrev pub list : Codec (List T)
  list = record { put = λ ts rest. length ts ∷ put_all ts rest; get = get_list; back = all_back }

abbrev to_option : Token → List ℕ
to_option native = []
to_option (erc20 a) = a ∷ []

abbrev from_option : List ℕ → Token
from_option [] = native
from_option (a ∷ xs) = erc20 a

pub token_back : (t : Token) → from_option (to_option t) ≡ t
token_back native = refl
token_back (erc20 a) = refl

abbrev token : Codec Token
token = mapped (list number) to_option from_option token_back

abbrev to_numbers : Option ℕ → List ℕ
to_numbers none = []
to_numbers (some a) = a ∷ []

abbrev from_numbers : List ℕ → Option ℕ
from_numbers [] = none
from_numbers (a ∷ xs) = some a

pub option_back : (o : Option ℕ) → from_numbers (to_numbers o) ≡ o
option_back none = refl
option_back (some a) = refl

abbrev option : Codec (Option ℕ)
option = mapped (list number) to_numbers from_numbers option_back

abbrev tx_data : Codec ShielderTxData
tx_data =
    mapped (number & number & number & token & number)
      (λ d. (d.amount, (d.note_index, (d.tx_hash, (d.token, d.protocol_fee)))))
      (λ (amount, (note_index, (tx_hash, (token, protocol_fee)))). record {
        amount = amount;
        note_index = note_index;
        tx_hash = tx_hash;
        token = token;
        protocol_fee = protocol_fee;
      })
      (λ d. refl)

-- The kind of an action, and the address of a withdrawal.
abbrev to_kind : ShielderAction → ℕ × (ℕ × ShielderTxData)
to_kind (ShielderAction.new_account d) = (0, (0, d))
to_kind (ShielderAction.deposit d) = (1, (0, d))
to_kind (ShielderAction.withdraw to d) = (2, (to, d))

abbrev from_kind : ℕ → ℕ → ShielderTxData → ShielderAction
from_kind zero to d = ShielderAction.new_account d
from_kind (suc zero) to d = ShielderAction.deposit d
from_kind (suc (suc n)) to d = ShielderAction.withdraw to d

pub kind_back : (a : ShielderAction) → from_kind (to_kind a).0 (to_kind a).1.0 (to_kind a).1.1 ≡ a
kind_back (ShielderAction.new_account d) = refl
kind_back (ShielderAction.deposit d) = refl
kind_back (ShielderAction.withdraw to d) = refl

abbrev action : Codec ShielderAction
action = mapped (number & number & tx_data) to_kind (λ u. from_kind u.0 u.1.0 u.1.1) kind_back

abbrev account : Codec ShielderAccount
account =
    mapped (number & token & number & number & list action)
      (λ a. (a.id, (a.token, (a.nonce, (a.shielded_amount, a.history)))))
      (λ u. record {
        id = u.0;
        token = u.1.0;
        nonce = u.1.1.0;
        shielded_amount = u.1.1.1.0;
        history = u.1.1.1.1;
      })
      (λ a. refl)

abbrev fees : Codec ProtocolFees
fees =
    mapped (option & option) (λ p. (p.deposit_fee, p.withdraw_fee))
      (λ u. record { deposit_fee = u.0; withdraw_fee = u.1 }) (λ p. refl)

abbrev client : Codec ClientState
client =
    mapped (list (number & account) & fees) (λ s. (s.accounts, s.protocol_fees))
      (λ u. record { accounts = u.0; protocol_fees = u.1 }) (λ s. refl)

abbrev pub app_state : Codec AppState
app_state =
    mapped (client & list number & number & list number & list number)
      (λ s. (s.client, (s.node_rpc_url, (s.contract_address, (s.relayer_rpc_url, s.signing_key)))))
      (λ u. record {
        client = u.0;
        node_rpc_url = u.1.0;
        contract_address = u.1.1.0;
        relayer_rpc_url = u.1.1.1.0;
        signing_key = u.1.1.1.1;
      })
      (λ s. refl)
