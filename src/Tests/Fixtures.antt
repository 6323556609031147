-- ===== src/Tests/Fixtures.antt =====
-- Concrete instances of what the models take as parameters: the scalar field of BN254 as numbers,
-- hashes that are not constant, and decimals of eighteen places.
use zk_os_monorepo.Base.{
  ℕ, ◌+◌, ◌-◌, ◌*◌, ◌/◌, ◌%◌, ◌^◌, Option, none, some, List, ◌==◌, leb, if◌then◌else◌, arith,
}
use zk_os_monorepo.Base.Int.{ℤ, pos, negsuc}
use zk_os_monorepo.Base.Bytes.{
  to_le_bytes, from_le_bytes, length-to_le_bytes, to_le_bytes-IsBytes, from_le_bytes-to_le_bytes,
}
use zk_os_monorepo.Base.Assoc.{Key, number_key}
use zk_os_monorepo.Conversions.{Field, IsCanonical}
use zk_os_monorepo.Account.Secrets.{field_modulus}
use zk_os_monorepo.Account.State.{Hashes}
use zk_os_monorepo.Calls.Knowledge.{Circuits}
use zk_os_monorepo.Relayer.Decimal.{Decimals}

abbrev pub fr : Field
fr = record { Fr = ℕ; from_limbs = λ n. n % field_modulus; to_repr = λ x. to_le_bytes 32 x }

pub fr-IsCanonical : IsCanonical fr field_modulus
fr-IsCanonical = record {
  above_addresses = omega arith;
  repr_length = λ x. length-to_le_bytes 32 x;
  repr_bytes = λ x. to_le_bytes-IsBytes 32 x;
  repr_value = λ n. from_le_bytes-to_le_bytes 32 (n % field_modulus) (omega arith);
}

abbrev pub hashes : Hashes fr
hashes = record {
  generate_user_id = λ bytes. from_le_bytes bytes % field_modulus;
  note_hash = λ note. (note.nullifier + note.account_balance) % field_modulus;
}

abbrev pub keccak : List ℕ → List ℕ
keccak bytes = bytes

abbrev pub circuits : Circuits fr
circuits = record {
  field_element_to_le_bits = λ x. to_le_bytes 32 x;
  new_account_input = λ pk i. pk.id;
  deposit_input = λ pk i. pk.nullifier_old;
  withdraw_input = λ pk i. pk.nullifier_old;
}

abbrev pub one : ℕ
one = 10 ^ 18

abbrev pub from_integer : ℤ → ℕ → Option ℕ
from_integer (pos n) s = if leb s 18 then some (n * 10 ^ (18 - s)) else none
from_integer (negsuc n) s = none

abbrev pub equality : Key ℕ
equality = number_key

abbrev pub fixed_point : Decimals
fixed_point = record {
  Decimal = ℕ;
  equality = equality;
  divide = λ a b. if b == 0 then none else some (a * one / b);
  multiply = λ a b. some (a * b / one);
  from_i128_with_scale = from_integer;
  round_sf = λ digits x. some x;
  mantissa = pos;
  scale = λ x. 18;
}
