-- ===== src/Prover/Circuits/Encoded.antt =====
-- A knowledge as the bytes of a circuit's input, as a user of
-- tee/crates/shielder-prover-tee/src/circuits writes them, and what the circuits read of these bytes.
use zk_os_monorepo.Base.{
  ℕ, zero, suc, ◌+◌, ◌*◌, ◌≡◌, refl, Option, some, List, [], ◌∷◌, ◌++◌, length, map, drop,
  length-append, take-append, drop-append, drop-skip, arith, ◌∙◌,
}
use zk_os_monorepo.Conversions.{Field, bytes_to_field, field_to_bytes}
use zk_os_monorepo.MerklePath.{arity, tree_height}
use zk_os_monorepo.Calls.Knowledge.{
  NewAccountProverKnowledge, DepositProverKnowledge, WithdrawProverKnowledge, Circuits,
}
use zk_os_monorepo.Prover.Circuits.{vec_to_f, next_element, path_row, path_rows, vec_to_path}
use zk_os_monorepo.Prover.Circuits.Deposit.{DepositProveInputBytes, read_deposit_knowledge}
use zk_os_monorepo.Prover.Circuits.NewAccount.{
  NewAccountProveInputsBytes, read_new_account_knowledge,
}
use zk_os_monorepo.Prover.Circuits.Withdraw.{WithdrawProveInputsBytes, read_withdraw_knowledge}

-- The field's representations have 32 bytes and are read back.
pub record HasRepr (f : Field) (from_repr : List ℕ → Option f.Fr) : Type 0 where
  pub repr_length : (x : f.Fr) → length (f.to_repr x) ≡ 32
  pub repr_back : (x : f.Fr) → from_repr (f.to_repr x) ≡ some x

abbrev pub AllLong {ℓ} : {A : Type ℓ} → ℕ → List (List A) → Type 0
AllLong n [] = Unit {0}
AllLong n (row ∷ rows) = (length row ≡ n) × AllLong n rows

-- A path of the tree: as many rows as the tree is high, each with as many elements as a node has
-- children.
abbrev pub IsPath {ℓ} : {A : Type ℓ} → List (List A) → Type 0
IsPath path = (length path ≡ tree_height) × AllLong arity path

length-map : {A B : Type 0} (g : A → B) (xs : List A) → length (map g xs) ≡ length xs
length-map g [] = refl
length-map g (x ∷ xs) = omega (arith, length-map g xs)

AllLong-map :
    {A B : Type 0} (g : A → B) (n : ℕ) (rows : List (List A))
    → AllLong n rows
    → AllLong n (map (map g) rows)
AllLong-map g n [] h = tt
AllLong-map g n (row ∷ rows) (h, hs) = (omega (arith, length-map g row, h), AllLong-map g n rows hs)

pub IsPath-map :
    {A B : Type 0} (g : A → B) (path : List (List A)) → IsPath path → IsPath (map (map g) path)
IsPath-map g path (h, hs) = (omega (arith, length-map (map g) path, h), AllLong-map g arity path hs)

module _ (f : Field) (from_repr : List ℕ → Option f.Fr) (c : HasRepr f from_repr) where
  abbrev pub row_bytes : List f.Fr → List ℕ → List ℕ
  row_bytes [] rest = rest
  row_bytes (x ∷ row) rest = field_to_bytes f x ++ row_bytes row rest

  abbrev pub path_bytes : List (List f.Fr) → List ℕ
  path_bytes [] = []
  path_bytes (row ∷ rows) = row_bytes row (path_bytes rows)

  vec_to_f-field_to_bytes : (x : f.Fr) → vec_to_f f from_repr (field_to_bytes f x) ≡ some x
  unfolding vec_to_f bytes_to_field field_to_bytes
  vec_to_f-field_to_bytes x = ground (arith, c.repr_length x, c.repr_back x)

  length-row_bytes :
      (row : List f.Fr) (rest : List ℕ)
      → length (row_bytes row rest) ≡ 32 * length row + length rest
  unfolding field_to_bytes
  length-row_bytes [] rest = omega arith
  length-row_bytes (x ∷ row) rest = omega (
    arith,
    length-append (f.to_repr x) (row_bytes row rest),
    c.repr_length x,
    length-row_bytes row rest,
  )

  length-path_bytes :
      (rows : List (List f.Fr)) → AllLong 7 rows → length (path_bytes rows) ≡ 224 * length rows
  length-path_bytes [] h = refl
  length-path_bytes (row ∷ rows) (h, hs) =
      omega (arith, length-row_bytes row (path_bytes rows), h, length-path_bytes rows hs)

  next_lem :
      (x : f.Fr) (rest : List ℕ)
      → (next_element f from_repr (field_to_bytes f x ++ rest) ≡ some x)
        × (drop 32 (field_to_bytes f x ++ rest) ≡ rest)
  unfolding next_element field_to_bytes
  next_lem x rest =
      let here = take-append (f.to_repr x) rest 32 (c.repr_length x) in
      let long = length-append (f.to_repr x) rest in
      (
        ground (arith, here, long, c.repr_length x, c.repr_back x),
        drop-append (f.to_repr x) rest 32 (c.repr_length x),
      )

  row_lem :
      (n : ℕ) (row : List f.Fr) (rest : List ℕ)
      → length row ≡ n
      → path_row f from_repr n (row_bytes row rest) ≡ some row
  unfolding path_row
  row_lem zero [] rest h = refl
  row_lem (suc n) [] rest h = absurd (omega arith)
  row_lem zero (x ∷ row) rest h = absurd (omega arith)
  row_lem (suc n) (x ∷ row) rest h =
      let (here, after) = next_lem x (row_bytes row rest) in
      rw here (rw after (rw (row_lem n row rest (omega arith)) refl))

  drop-row_bytes :
      (n : ℕ) (row : List f.Fr) (rest : List ℕ)
      → length row ≡ n
      → drop (32 * n) (row_bytes row rest) ≡ rest
  unfolding field_to_bytes
  drop-row_bytes zero [] rest h = refl
  drop-row_bytes (suc n) [] rest h = absurd (omega arith)
  drop-row_bytes zero (x ∷ row) rest h = absurd (omega arith)
  drop-row_bytes (suc n) (x ∷ row) rest h =
      drop-skip (f.to_repr x) (row_bytes row rest) (32 * suc n) (32 * n)
        (omega (arith, c.repr_length x))
      ∙ drop-row_bytes n row rest (omega arith)

  rows_lem :
      (n : ℕ) (rows : List (List f.Fr))
      → length rows ≡ n
      → AllLong arity rows
      → path_rows f from_repr n (path_bytes rows) ≡ some rows
  unfolding path_rows
  rows_lem zero [] l h = refl
  rows_lem (suc n) [] l h = absurd (omega arith)
  rows_lem zero (row ∷ rows) l h = absurd (omega arith)
  rows_lem (suc n) (row ∷ rows) l (h, hs) = rw (row_lem arity row (path_bytes rows) h) (
      rw (drop-row_bytes arity row (path_bytes rows) h)
        (rw (rows_lem n rows (omega arith) hs) refl))

  path_lem :
      (path : List (List f.Fr))
      → IsPath path
      → vec_to_path f from_repr (path_bytes path) ≡ some path
  unfolding vec_to_path
  path_lem path (h, hs) =
      let long : length (path_bytes path) ≡ tree_height * arity * 32 =
        omega (arith, length-path_bytes path hs, h) in
      rw long (rows_lem tree_height path h hs)

  -- The inputs of the three circuits for a knowledge; that of a new account is given with the salt of
  -- its encryption as an element.
  abbrev pub deposit_bytes : DepositProverKnowledge f.Fr → DepositProveInputBytes
  deposit_bytes k = record {
    id = field_to_bytes f k.id;
    nullifier_old = field_to_bytes f k.nullifier_old;
    account_balance_old = field_to_bytes f k.account_old_balance;
    token_address = field_to_bytes f k.token_address;
    path = path_bytes k.path;
    value = field_to_bytes f k.deposit_value;
    commitment = field_to_bytes f k.commitment;
    nullifier_new = field_to_bytes f k.nullifier_new;
    mac_salt = field_to_bytes f k.mac_salt;
  }

  abbrev pub withdraw_bytes : WithdrawProverKnowledge f.Fr → WithdrawProveInputsBytes
  withdraw_bytes k = record {
    id = field_to_bytes f k.id;
    nullifier_old = field_to_bytes f k.nullifier_old;
    account_balance_old = field_to_bytes f k.account_old_balance;
    token_address = field_to_bytes f k.token_address;
    path = path_bytes k.path;
    value = field_to_bytes f k.withdrawal_value;
    nullifier_new = field_to_bytes f k.nullifier_new;
    commitment = field_to_bytes f k.commitment;
    mac_salt = field_to_bytes f k.mac_salt;
  }

  abbrev pub new_account_bytes : NewAccountProverKnowledge f.Fr → f.Fr → NewAccountProveInputsBytes
  new_account_bytes k salt = record {
    id = field_to_bytes f k.id;
    nullifier = field_to_bytes f k.nullifier;
    initial_deposit = field_to_bytes f k.initial_deposit;
    commitment = field_to_bytes f k.commitment;
    token_address = field_to_bytes f k.token_address;
    encryption_salt = field_to_bytes f salt;
    mac_salt = field_to_bytes f k.mac_salt;
    anonymity_revoker_public_key_x = field_to_bytes f k.anonymity_revoker_public_key_x;
    anonymity_revoker_public_key_y = field_to_bytes f k.anonymity_revoker_public_key_y;
  }

  module _ (circuits : Circuits f) where
    pub read-deposit_bytes :
        (k : DepositProverKnowledge f.Fr)
        → IsPath k.path
        → read_deposit_knowledge f from_repr circuits (deposit_bytes k) ≡ some k
    unfolding read_deposit_knowledge
    read-deposit_bytes k h = rw (vec_to_f-field_to_bytes k.id) (
        rw (vec_to_f-field_to_bytes k.nullifier_old) (
          rw (vec_to_f-field_to_bytes k.account_old_balance) (
            rw (vec_to_f-field_to_bytes k.token_address) (
              rw (path_lem k.path h) (
                rw (vec_to_f-field_to_bytes k.deposit_value) (
                  rw (vec_to_f-field_to_bytes k.commitment) (
                    rw (vec_to_f-field_to_bytes k.nullifier_new)
                      (rw (vec_to_f-field_to_bytes k.mac_salt) refl))))))))

    pub read-withdraw_bytes :
        (k : WithdrawProverKnowledge f.Fr)
        → IsPath k.path
        → read_withdraw_knowledge f from_repr circuits (withdraw_bytes k) ≡ some k
    unfolding read_withdraw_knowledge
    read-withdraw_bytes k h = simp (vec_to_f-field_to_bytes, path_lem k.path h)

    pub read-new_account_bytes :
        (k : NewAccountProverKnowledge f.Fr) (salt : f.Fr)
        → k.encryption_salt ≡ circuits.field_element_to_le_bits salt
        → read_new_account_knowledge f from_repr circuits (new_account_bytes k salt) ≡ some k
    unfolding read_new_account_knowledge
    read-new_account_bytes k salt h = simp (vec_to_f-field_to_bytes, ← h)
