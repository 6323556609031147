-- ===== src/Tests/Inputs.antt =====
-- Encodings of the inputs of the enclave's circuits.
use zk_os_monorepo.Base.{ℕ, ◌≡◌, refl, Option, none, some, List, [], arith}
use zk_os_monorepo.Prover.Circuits.Deposit.{DepositProveInputBytes}
use zk_os_monorepo.Prover.Circuits.Withdraw.{WithdrawProveInputsBytes}
use zk_os_monorepo.Prover.Circuits.NewAccount.{NewAccountProveInputsBytes}
use zk_os_monorepo.Tests.Codec.{Codec, number, list, ◌&◌, mapped}

abbrev pub Nine : Type 0
Nine = List ℕ × (List ℕ × (List ℕ × (List ℕ × (List ℕ × (List ℕ × (List ℕ × (List ℕ × List ℕ)))))))

-- The three kinds of inputs have nine byte strings each.
abbrev pub nine : Codec Nine
nine =
    list number
    & list number
    & list number
    & list number
    & list number
    & list number
    & list number
    & list number
    & list number

abbrev pub deserialize : {T : Type 0} → Codec T → List ℕ → Option T
deserialize codec bytes = elim (codec.get bytes) [ none ↦ none | some (b, rest) ↦ some b ]

pub deserialize_back :
    {T : Type 0} (codec : Codec T) (t : T) → deserialize codec (codec.put t []) ≡ some t
deserialize_back codec t = ground (arith, codec.back t [])

abbrev pub deposit_codec : Codec DepositProveInputBytes
deposit_codec =
    mapped nine
      (λ b. (
        b.id,
        (
          b.nullifier_old,
          (
            b.account_balance_old,
            (b.token_address, (b.path, (b.value, (b.commitment, (b.nullifier_new, b.mac_salt))))),
          ),
        ),
      ))
      (λ u. record {
        id = u.0;
        nullifier_old = u.1.0;
        account_balance_old = u.1.1.0;
        token_address = u.1.1.1.0;
        path = u.1.1.1.1.0;
        value = u.1.1.1.1.1.0;
        commitment = u.1.1.1.1.1.1.0;
        nullifier_new = u.1.1.1.1.1.1.1.0;
        mac_salt = u.1.1.1.1.1.1.1.1;
      })
      (λ b. refl)

abbrev pub withdraw_codec : Codec WithdrawProveInputsBytes
withdraw_codec =
    mapped nine
      (λ b. (
        b.id,
        (
          b.nullifier_old,
          (
            b.account_balance_old,
            (b.token_address, (b.path, (b.value, (b.nullifier_new, (b.commitment, b.mac_salt))))),
          ),
        ),
      ))
      (λ u. record {
        id = u.0;
        nullifier_old = u.1.0;
        account_balance_old = u.1.1.0;
        token_address = u.1.1.1.0;
        path = u.1.1.1.1.0;
        value = u.1.1.1.1.1.0;
        nullifier_new = u.1.1.1.1.1.1.0;
        commitment = u.1.1.1.1.1.1.1.0;
        mac_salt = u.1.1.1.1.1.1.1.1;
      })
      (λ b. refl)

abbrev pub new_account_codec : Codec NewAccountProveInputsBytes
new_account_codec =
    mapped nine
      (λ b. (
        b.id,
        (
          b.nullifier,
          (
            b.initial_deposit,
            (
              b.commitment,
              (
                b.token_address,
                (
                  b.encryption_salt,
                  (
                    b.mac_salt,
                    (b.anonymity_revoker_public_key_x, b.anonymity_revoker_public_key_y),
                  ),
                ),
              ),
            ),
          ),
        ),
      ))
      (λ u. record {
        id = u.0;
        nullifier = u.1.0;
        initial_deposit = u.1.1.0;
        commitment = u.1.1.1.0;
        token_address = u.1.1.1.1.0;
        encryption_salt = u.1.1.1.1.1.0;
        mac_salt = u.1.1.1.1.1.1.0;
        anonymity_revoker_public_key_x = u.1.1.1.1.1.1.1.0;
        anonymity_revoker_public_key_y = u.1.1.1.1.1.1.1.1;
      })
      (λ b. refl)
