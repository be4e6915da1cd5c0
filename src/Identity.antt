-- ===== src/Identity.antt =====
-- src/identity.rs: the key pair of a node, read from its file, or generated and kept there.
use punchgate.Common.{
  ℕ, ◌≡◌, ◌∙◌, ap, refl, Bool, true, false, Option, none, some, String, List, Result, ok, err,
  subst, sym, Bool-cases, Result-cases, ◌⊎◌, inl, inr,
}

-- What the source calls: the file system, whose state the calls may change, and the key pairs
-- of libp2p with their protobuf encoding. An error stands for its text.
pub record Disk : Type 1 where
  pub State : Type 0
  pub FilePath : Type 0
  pub exists : FilePath → State → Bool
  pub parent : FilePath → Option FilePath
  pub read : FilePath → State → Result String (List ℕ)
  pub create_dir_all : FilePath → State → Result String (Unit {0}) × State
  pub write : FilePath → List ℕ → State → Result String (Unit {0}) × State

pub record Keys : Type 1 where
  pub Keypair : Type 0
  pub from_protobuf_encoding : List ℕ → Result String Keypair
  pub to_protobuf_encoding : Keypair → Result String (List ℕ)

pub data IdentityError : Type 0 where
  reading decoding encoding creating writing : String → IdentityError

module _ (disk : Disk) (keys : Keys) where
  open disk use {State, FilePath, exists, parent, read, create_dir_all, write}
  open keys use {Keypair, from_protobuf_encoding, to_protobuf_encoding}

  -- The arm for a file that is there.
  unfoldable pub decoded : Result String (List ℕ) → Result IdentityError Keypair
  decoded (err e) = err (reading e)
  decoded (ok bytes) = elim (from_protobuf_encoding bytes) [
    | err e ↦ err (decoding e)
    | ok keypair ↦ ok keypair
  ]

  -- The last call of the other arm, behind the directory.
  unfoldable pub kept :
      Keypair → Result String (Unit {0}) × State → Result IdentityError Keypair × State
  kept keypair (err e, disk') = (err (writing e), disk')
  kept keypair (ok _, disk') = (ok keypair, disk')

  unfoldable pub write_into :
      FilePath
      → Keypair
      → List ℕ
      → Result String (Unit {0}) × State
      → Result IdentityError Keypair × State
  unfolding kept
  write_into path keypair bytes (err e, disk') = (err (creating e), disk')
  write_into path keypair bytes (ok _, disk') = kept keypair (write path bytes disk')

  -- `create_dir_all` of the parent, where there is one.
  unfoldable pub make_parent : FilePath → State → Result String (Unit {0}) × State
  make_parent path s = elim (parent path) [ none ↦ (ok tt, s) | some dir ↦ create_dir_all dir s ]

  -- The arm for a file that is not there; `generated` is what `generate_ed25519` returns.
  unfoldable pub generate_into : FilePath → Keypair → State → Result IdentityError Keypair × State
  unfolding make_parent write_into
  generate_into path generated s = elim (to_protobuf_encoding generated) [
    | err e ↦ (err (encoding e), s)
    | ok bytes ↦ write_into path generated bytes (make_parent path s)
  ]

  unfoldable pub load_or_generate :
      FilePath → Keypair → State → Result IdentityError Keypair × State
  unfolding decoded generate_into
  load_or_generate path generated s = elim (exists path s) [
    | true ↦ (decoded (read path s), s)
    | false ↦ generate_into path generated s
  ]

  -- What the source relies on: a file that was written is there with what was written, and a
  -- key pair is decoded from its encoding.
  pub record IdentityLaws : Type 0 where
    pub written :
        (path : FilePath) (bytes : List ℕ) (s : State)
        → (write path bytes s).0 ≡ ok tt
        → (exists path (write path bytes s).1 ≡ true)
          × (read path (write path bytes s).1 ≡ ok bytes)
    pub encoded :
        (keypair : Keypair) (bytes : List ℕ)
        → to_protobuf_encoding keypair ≡ ok bytes
        → from_protobuf_encoding bytes ≡ ok keypair

  module _ (laws : IdentityLaws) where
    result-cases :
        {S : Type 0} (r : Result String (Unit {0}) × S)
        → ((t : S) × (r ≡ (ok tt, t))) ⊎ ((e : String) × (t : S) × (r ≡ (err e, t)))
    result-cases (ok _, t) = inl (t, refl)
    result-cases (err e, t) = inr (e, t, refl)

    -- What a run that returns a key pair leaves: the same is read from there.
    abbrev IsKept : FilePath → Result IdentityError Keypair × State → Type 0
    IsKept path (err e, t) = Unit {0}
    IsKept path (ok keypair, t) = (exists path t ≡ true) × (decoded (read path t) ≡ ok keypair)

    kept-IsKept :
        (path : FilePath) (keypair : Keypair) (bytes : List ℕ) (s : State)
        → to_protobuf_encoding keypair ≡ ok bytes
        → IsKept path (kept keypair (write path bytes s))
    unfolding kept decoded
    kept-IsKept path keypair bytes s e = elim (result-cases (write path bytes s)) [
      | inr (why, t, w) ↦ rw (w, kept) tt
      | inl (t, w) ↦
          let (found, same) = laws.written path bytes s (ap (λ x. x.0) w) in
          rw (w, kept)
            (
              subst (λ x. exists path x ≡ true) (ap (λ x. x.1) w) found,
              subst (λ x. decoded (read path x) ≡ ok keypair) (ap (λ x. x.1) w)
                  (ap decoded same ∙ rw (decoded, laws.encoded keypair bytes e) refl),
            )
    ]

    after_directory :
        (path : FilePath) (keypair : Keypair) (bytes : List ℕ)
        (made : Result String (Unit {0}) × State)
        → to_protobuf_encoding keypair ≡ ok bytes
        → IsKept path (write_into path keypair bytes made)
    unfolding write_into
    after_directory path keypair bytes (err why, s) e = tt
    after_directory path keypair bytes (ok _, s) e = kept-IsKept path keypair bytes s e

    generate_into-IsKept :
        (path : FilePath) (generated : Keypair) (s : State)
        → IsKept path (generate_into path generated s)
    unfolding generate_into
    generate_into-IsKept path generated s = elim (Result-cases (to_protobuf_encoding generated)) [
      | inr (why, e) ↦ rw (generate_into, e) tt
      | inl (bytes, e) ↦
          subst (IsKept path) (sym (rw (generate_into, e) refl))
            (after_directory path generated bytes (make_parent path s) e)
    ]

    load_or_generate-IsKept :
        (path : FilePath) (generated : Keypair) (s : State)
        → IsKept path (load_or_generate path generated s)
    unfolding load_or_generate
    load_or_generate-IsKept path generated s = elim (Bool-cases (exists path s)) [
      | inr e ↦ rw (load_or_generate, e) (generate_into-IsKept path generated s)
      | inl e ↦ elim (Result-cases (decoded (read path s))) [
        | inr (why, d) ↦ rw (load_or_generate, e, d) tt
        | inl (keypair, d) ↦ rw (load_or_generate, e, d) (e, d)
      ]
    ]

    again :
        (path : FilePath) (other keypair : Keypair) (t : State)
        → exists path t ≡ true
        → decoded (read path t) ≡ ok keypair
        → load_or_generate path other t ≡ (ok keypair, t)
    unfolding load_or_generate
    again path other keypair t e d = rw (load_or_generate, e, d) refl

    -- A node keeps its identity: where a run returns a key pair, generated or read, the next run
    -- on the same file returns that key pair, whatever it would generate, and changes nothing.
    pub load_or_generate_twice :
        (path : FilePath) (generated other keypair : Keypair) (s t : State)
        → load_or_generate path generated s ≡ (ok keypair, t)
        → load_or_generate path other t ≡ (ok keypair, t)
    load_or_generate_twice path generated other keypair s t h =
        let (e, d) = subst (IsKept path) h (load_or_generate-IsKept path generated s) in
        again path other keypair t e d
