-- ===== src/Tests/ToyData.antt =====
-- Small instances of what the model takes as parameters for databases, files and keys: maps are
-- functions, and an encoding is the list of a value's parts.
use go_minimal_pbft.Prelude.{
  ℕ, ◌≡◌, ◌≢◌, refl, sym, ap, ◌∙◌, inl, inr, Bool, true, false, ◌&&◌, Option, none, some, [], ◌∷◌,
  ◌==◌, if◌then◌else◌, Bool-cases, arith,
}
use go_minimal_pbft.Messages.{Bytes}
use go_minimal_pbft.Store.{Database, Rlp}
use go_minimal_pbft.KeyFiles.{ReadResult, contents, not_found, FileSystem, KeyCodec}
use go_minimal_pbft.PrivValidator.{Crypto, pub_key_to_address}
use go_minimal_pbft.Tests.Toy.{toy_library}

abbrev pub same : Bytes → Bytes → Bool
same [] [] = true
same [] (b ∷ bs) = false
same (a ∷ rest) [] = false
same (a ∷ rest) (b ∷ bs) = a == b && same rest bs

pub same_refl : (k : Bytes) → same k k ≡ true
same_refl [] = refl
same_refl (a ∷ rest) = let h = same_refl rest in ground (arith, h)

pub both : (a b : Bool) → (a && b) ≡ true → (a ≡ true) × (b ≡ true)
both true b h = (refl, h)
both false b h = ground (arith, h)

pub same_path : (j k : Bytes) → same j k ≡ true → j ≡ k
same_path [] [] h = refl
same_path [] (b ∷ bs) h = ground (arith, h)
same_path (a ∷ rest) [] h = ground (arith, h)
same_path (a ∷ rest) (b ∷ bs) h =
    let (head, tail) = both (a == b) (same rest bs) h in
    ap (λ l. a ∷ l) (same_path rest bs tail) ∙ ap (λ n. n ∷ bs) (ground (arith, head))

abbrev pub Table : Type 0
Table = Bytes → Option Bytes

abbrev pub written : Table → Bytes → Bytes → Table
written d k v j = if same j k then some v else d j

pub written_same : (d : Table) (k v : Bytes) → written d k v k ≡ some v
written_same d k v = rw (same_refl k) refl

pub written_other : (d : Table) (k j v : Bytes) → j ≢ k → written d k v j ≡ d j
written_other d k j v apart = elim (Bool-cases (same j k)) [
  | inl h ↦ let bad : ⊥ = apart (same_path j k h) in elim bad [ ]
  | inr h ↦ rw h refl
]

-- From an equation between results to one between what they give.
pub given : {A B : Type 0} (f : A → B) (a b : A) → some a ≡ some b → f b ≡ f a
given f a b e = sym (ap (λ o. elim o [ none ↦ f a | some x ↦ f x ]) e)

abbrev pub toy_database : Database
toy_database = record {
  Db = Table;
  get = λ d k. d k;
  put = λ d k v. some (written d k v);
  get-put_same = λ d t k v e. given (λ u. u k) (written d k v) t e ∙ written_same d k v;
  get-put_other =
      λ d t k j v e apart. given (λ u. u j) (written d k v) t e ∙ written_other d k j v apart;
}

abbrev pub encode_number : ℕ → Option Bytes
encode_number n = some (n ∷ [])

abbrev pub decode_number : Bytes → Option ℕ
decode_number (n ∷ []) = some n
decode_number _ = none

pub decode_number-encode_number :
    (n : ℕ) (d : Bytes) → encode_number n ≡ some d → decode_number d ≡ some n
decode_number-encode_number n d e = given decode_number (n ∷ []) d e

abbrev pub toy_rlp : Rlp toy_library
toy_rlp = record {
  encode_block = encode_number;
  decode_block = decode_number;
  encode_commit = encode_number;
  decode_commit = decode_number;
  decode-encode_block = decode_number-encode_number;
  decode-encode_commit = decode_number-encode_number;
}

abbrev pub read_result : Option Bytes → ReadResult
read_result none = not_found
read_result (some b) = contents b

abbrev pub is_missing : Option Bytes → Bool
is_missing none = true
is_missing (some b) = false

pub present : (o : Option Bytes) (b : Bytes) → read_result o ≡ contents b → is_missing o ≡ false
present none b e = ground (arith, e)
present (some a) b e = refl

abbrev pub toy_files : FileSystem
toy_files = record {
  Files = Table;
  read_file = λ fs p. read_result (fs p);
  stat_not_exist = λ fs p. is_missing (fs p);
  write_file = λ fs p b. (written fs p b, true);
  read_file-write_file =
      λ fs gs p b e. ap (λ r. read_result (r.0 p)) (sym e) ∙ ap read_result (written_same fs p b);
  read_file-write_file_other = λ fs p q b apart. ap read_result (written_other fs p q b apart);
  stat-read_file = λ fs p b e. present (fs p) b e;
}

abbrev pub toy_keys : KeyCodec
toy_keys = record {
  Key = ℕ;
  marshal = encode_number;
  unmarshal = decode_number;
  unmarshal-marshal = decode_number-encode_number;
}

-- The hash of bytes is the bytes themselves, and a signature is the key and the hash.
abbrev pub key_bytes : ℕ → Bytes
key_bytes k = 0 ∷ 0 ∷ 0 ∷ 0 ∷ 0 ∷ 0 ∷ 0 ∷ 0 ∷ 0 ∷ 0 ∷ 0 ∷ 0 ∷ k ∷ []

abbrev pub signer_of : Bytes → Option Bytes
signer_of [] = none
signer_of (k ∷ h) = some (4 ∷ key_bytes k)

pub key_address_lem : (k : ℕ) → k ≡ pub_key_to_address (λ b. b) (key_bytes k)
unfolding pub_key_to_address
key_address_lem k = omega arith

abbrev pub toy_crypto : Crypto ℕ
toy_crypto = record {
  PrivateKey = ℕ;
  keccak256 = λ b. b;
  sign = λ h k. some (k ∷ h);
  ecrecover = λ h s. signer_of s;
  public_bytes = key_bytes;
  key_address = λ k. k;
  vote_sign_bytes = λ c v. v.height ∷ v.block_id ∷ v.timestamp_ms ∷ [];
  proposal_sign_bytes = λ c p. p.height ∷ [];
  ecrecover-sign = λ h s k e. given signer_of (k ∷ h) s e;
  key_address-public_bytes = λ k. key_address_lem k;
  vote_sign_bytes-signature = λ c v s. refl;
  proposal_sign_bytes-signature = λ c p s. refl;
}
