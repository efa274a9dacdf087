-- ===== src/Kms/Keys.antt =====
-- internal/kms/store.go: the creation of a key with its first version.
use blitzy_localgcp.Base.{
  ℕ, ◌≡◌, ◌≢◌, refl, ap, sym, ◌∙◌, some, arith, Str, bytes, lookup, insert, erase, lookup-insert,
  lookup-insert_self, lookup-erase, str_eq, str_eq-false, Dict, str_eq_iff, has_key, has_key-false,
  Result, ok, err, Result-cases, ok-injective, err-ne-ok, inl, inr, if◌then◌else◌, Bool-cases, true,
  false,
}
use blitzy_localgcp.Kms.Data.{Purpose, StoredCryptoKey, StoredVersion, Store, Entropy}
use blitzy_localgcp.Kms.Algorithms.{unspecified_algorithm, default_algorithm, version_path}
use blitzy_localgcp.Kms.{
  create_crypto_key, create_version_locked, next_number, generate, bare_version, primary_version,
  finish_creation,
}

abbrev chosen : Purpose → Str → Str
chosen purpose algorithm =
    if str_eq algorithm unspecified_algorithm then default_algorithm purpose else algorithm

module _ {RsaKey EcKey : Type 0} where
  -- The store in which the first version is created.
  abbrev keyed : Store RsaKey EcKey → Str → StoredCryptoKey → Store RsaKey EcKey
  keyed s name key = record s {
    crypto_keys = insert name key s.crypto_keys;
    next_ver = insert name 1 s.next_ver;
  }

  next_number-keyed :
      (s : Store RsaKey EcKey) (name : Str) (key : StoredCryptoKey)
      → next_number (keyed s name key) name ≡ 1
  unfolding next_number
  next_number-keyed s name key = rw (lookup-insert_self name 1 s.next_ver)

  -- The two outcomes of a creation, by what the generation of the key material returns.
  create_version_ok :
      (s : Store RsaKey EcKey) (fresh : Entropy RsaKey EcKey) (name : Str) (key : StoredCryptoKey)
      (alg : Str) (now : ℕ) (v : StoredVersion RsaKey EcKey)
      → generate fresh alg (bare_version (version_path name 1) alg now) ≡ ok v
      → create_version_locked (keyed s name key) fresh name alg now ≡ (
        ok v,
        record (keyed s name key) {
          next_ver = insert name 2 (insert name 1 s.next_ver);
          versions = insert (version_path name 1) v s.versions;
        },
      )
  unfolding create_version_locked
  create_version_ok s fresh name key alg now v g =
      rw (next_number-keyed s name key, g, create_version_locked)
        (rw (next_number-keyed s name key))

  create_version_err :
      (s : Store RsaKey EcKey) (fresh : Entropy RsaKey EcKey) (name : Str) (key : StoredCryptoKey)
      (alg : Str) (now : ℕ) (e : Str)
      → generate fresh alg (bare_version (version_path name 1) alg now) ≡ err e
      → create_version_locked (keyed s name key) fresh name alg now
        ≡ (err e, record (keyed s name key) { next_ver = insert name 2 (insert name 1 s.next_ver) })
  unfolding create_version_locked
  create_version_err s fresh name key alg now e g =
      rw (next_number-keyed s name key, g, create_version_locked)
        (rw (next_number-keyed s name key))

module _ {RsaKey EcKey : Type 0} (s : Store RsaKey EcKey) (fresh : Entropy RsaKey EcKey) (now : ℕ)
    (name : Str) (purpose : Purpose) (algorithm : Str) where
  abbrev new_key : StoredCryptoKey
  new_key = record {
    name = name;
    purpose = purpose;
    algorithm = chosen purpose algorithm;
    create_time = now;
    primary_ver = 1;
  }

  abbrev after_ok : StoredVersion RsaKey EcKey → Store RsaKey EcKey
  after_ok v = record (keyed s name new_key) {
    next_ver = insert name 2 (insert name 1 s.next_ver);
    versions = insert (version_path name 1) v s.versions;
  }

  abbrev after_err : Store RsaKey EcKey
  after_err = record (keyed s name new_key) {
    next_ver = insert name 2 (insert name 1 s.next_ver);
    crypto_keys = erase name (insert name new_key s.crypto_keys);
  }

  -- The three outcomes of the call.
  data Created (r : Result Str (StoredCryptoKey × StoredVersion RsaKey EcKey) × Store RsaKey EcKey)
      : Type 0 where
    taken : has_key name s.crypto_keys ≡ true → r ≡ (err (bytes "already exists"), s) → Created r
    failed : (e : Str) → has_key name s.crypto_keys ≡ false → r ≡ (err e, after_err) → Created r
    made :
        (v : StoredVersion RsaKey EcKey)
        → has_key name s.crypto_keys ≡ false
        → generate fresh
            (chosen purpose algorithm)
            (bare_version (version_path name 1) (chosen purpose algorithm) now)
          ≡ ok v
        → r ≡ (ok (new_key, v), after_ok v)
        → Created r

  create_crypto_key_cases : Created (create_crypto_key s fresh now name purpose algorithm)
  unfolding create_crypto_key finish_creation
  create_crypto_key_cases = elim (Bool-cases (has_key name s.crypto_keys)) [
    | inl e ↦ taken e (rw e)
    | inr e ↦
        elim (Result-cases (
          generate fresh (chosen purpose algorithm)
            (bare_version (version_path name 1) (chosen purpose algorithm) now))) [
              | inl (v, g) ↦ made v e g (
                  rw (e, create_version_ok s fresh name new_key (chosen purpose algorithm) now v g))
              | inr (m, g) ↦ failed m e (
                  rw
                    (e, create_version_err s fresh name new_key (chosen purpose algorithm) now m g))
            ]
  ]

lookup-erase-insert :
    (name k : Str) (key : StoredCryptoKey) (m : Dict StoredCryptoKey)
    → has_key name m ≡ false
    → lookup k (erase name (insert name key m)) ≡ lookup k m
lookup-erase-insert name k key m new = ground (
  arith,
  lookup-erase name k (insert name key m),
  lookup-insert name k key m,
  str_eq_iff name k,
  has_key-false name m new,
)

primary-made :
    {RsaKey EcKey : Type 0} (s : Store RsaKey EcKey) (name : Str) (key : StoredCryptoKey)
    (w : StoredVersion RsaKey EcKey) (counts : Dict ℕ)
    → key.primary_ver ≡ 1
    → primary_version
        (record s {
          crypto_keys = insert name key s.crypto_keys;
          next_ver = counts;
          versions = insert (version_path name 1) w s.versions;
        })
        name
      ≡ some w
unfolding primary_version
primary-made s name key w counts one =
    rw (lookup-insert_self name key s.crypto_keys, primary_version)
      (rw (one, lookup-insert_self (version_path name 1) w s.versions))

-- A creation that fails leaves every key and every version as it was; what may stay is the count of
-- the versions of that name.
pub create_crypto_key_fails :
    {RsaKey EcKey : Type 0} (s t : Store RsaKey EcKey) (fresh : Entropy RsaKey EcKey) (now : ℕ)
    (name : Str) (purpose : Purpose) (algorithm e : Str)
    → create_crypto_key s fresh now name purpose algorithm ≡ (err e, t)
    → ((k : Str) → lookup k t.crypto_keys ≡ lookup k s.crypto_keys)
      × (t.versions ≡ s.versions)
      × (t.key_rings ≡ s.key_rings)
create_crypto_key_fails s t fresh now name purpose algorithm e h =
    elim (create_crypto_key_cases s fresh now name purpose algorithm) [
      | taken _ r ↦
          let same : s ≡ t = ap (λ p. p.1) (sym r ∙ h) in ((λ k. rw same), rw same, rw same)
      | failed m new r ↦
          let same : after_err s fresh now name purpose algorithm ≡ t = ap (λ p. p.1) (sym r ∙ h) in
          (
            (λ k. rw (← same) (lookup-erase-insert name k _ s.crypto_keys new)),
            rw (← same),
            rw (← same),
          )
      | made v new g r ↦ absurd (err-ne-ok (ap (λ p. p.0) (sym h ∙ r)))
    ]

-- A key that was created has its first version as the primary one, enabled, and keeps the others.
pub create_crypto_key-primary :
    {RsaKey EcKey : Type 0} (s t : Store RsaKey EcKey) (fresh : Entropy RsaKey EcKey) (now : ℕ)
    (name : Str) (purpose : Purpose) (algorithm : Str) (key : StoredCryptoKey)
    (v : StoredVersion RsaKey EcKey)
    → create_crypto_key s fresh now name purpose algorithm ≡ (ok (key, v), t)
    → (primary_version t name ≡ some v)
      × (lookup name t.crypto_keys ≡ some key)
      × ((k : Str) → name ≢ k → lookup k t.crypto_keys ≡ lookup k s.crypto_keys)
create_crypto_key-primary {RsaKey} {EcKey} s t fresh now name purpose algorithm key v h =
    elim (create_crypto_key_cases s fresh now name purpose algorithm) [
      | taken _ r ↦ absurd (err-ne-ok (ap (λ p. p.0) (sym r ∙ h)))
      | failed m new r ↦ absurd (err-ne-ok (ap (λ p. p.0) (sym r ∙ h)))
      | made w new g r ↦
          let same : after_ok s fresh now name purpose algorithm w ≡ t =
            ap (λ p. p.1) (sym r ∙ h) in
          let pair : ◌≡◌ {A = StoredCryptoKey × StoredVersion RsaKey EcKey}
              (new_key s fresh now name purpose algorithm, w) (key, v) =
            ok-injective (ap (λ p. p.0) (sym r ∙ h)) in
          rw (← same, ← (ap (λ p. p.0) pair), ← (ap (λ p. p.1) pair))
            (
              primary-made s name (new_key s fresh now name purpose algorithm) w _ refl,
              lookup-insert_self name _ s.crypto_keys,
              (λ k ne. rw (lookup-insert name k _ s.crypto_keys, str_eq-false name k ne)),
            )
    ]
