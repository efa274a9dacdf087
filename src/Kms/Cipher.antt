-- ===== src/Kms/Cipher.antt =====
-- internal/kms/store.go: encryption and decryption.
use blitzy_localgcp.Base.{
  ℕ, suc, ◌%◌, ◌≡◌, ◌≢◌, refl, ap, subst, sym, Result-cases, ok-injective, err-ne-ok, ap₂, ◌∙◌,
  List, [], ◌∷◌, length, Option, none, some, Str, bytes, lookup, lookup-alter, alter, str_eq-false,
  str_eq_refl, Result, ok, err, inl, inr,
}
use blitzy_localgcp.Base.Xor.{xor_twice}
use blitzy_localgcp.Kms.Data.{StoredVersion, Store}
use blitzy_localgcp.Kms.Algorithms.{xor_from, xor_crypt, crypt, nth_byte}
use blitzy_localgcp.Kms.{encrypt, decrypt, usable, destroy_version, erased, mac_sign}

xor_from_twice : (i : ℕ) (key input : List ℕ) → xor_from i key (xor_from i key input) ≡ input
unfolding xor_from
xor_from_twice i key [] = refl
xor_from_twice i key (d ∷ rest) =
    ap₂ (λ x l. x ∷ l) (xor_twice d (nth_byte (i % length key) key))
      (xor_from_twice (suc i) key rest)

length-xor_from : (i : ℕ) (key input : List ℕ) → length (xor_from i key input) ≡ length input
unfolding xor_from
length-xor_from i key [] = refl
length-xor_from i key (d ∷ rest) = ap suc (length-xor_from (suc i) key rest)

crypt_twice :
    (key : Option (List ℕ)) (plaintext : List ℕ) {ciphertext : List ℕ}
    → crypt key plaintext ≡ ok ciphertext
    → (crypt key ciphertext ≡ ok plaintext) × (length ciphertext ≡ length plaintext)
unfolding crypt xor_crypt
crypt_twice none plaintext h = absurd (cc h)
crypt_twice (some key) plaintext h = (
  subst (λ c. ◌≡◌ {A = Result Str (List ℕ)} (ok (xor_from 0 key c)) (ok plaintext)) (ok-injective h)
      (ap ok (xor_from_twice 0 key plaintext)),
  ap length (sym (ok-injective h)) ∙ length-xor_from 0 key plaintext,
)

module _ {RsaKey EcKey : Type 0} where
  -- What a version encrypts it decrypts, for any plaintext: the decryption with the same version
  -- succeeds with that plaintext, and the ciphertext has its length.
  pub decrypt-encrypt :
      (s : Store RsaKey EcKey) (name : Str) (plaintext ciphertext : List ℕ)
      → encrypt s name plaintext ≡ ok ciphertext
      → (decrypt s name ciphertext ≡ ok plaintext) × (length ciphertext ≡ length plaintext)
  unfolding encrypt decrypt
  decrypt-encrypt s name plaintext ciphertext h = elim (Result-cases (usable s name)) [
    | inl (v, e) ↦ rw (e, encrypt) (crypt_twice v.sym_key plaintext (rw (e, encrypt) at h))
    | inr (m, e) ↦ absurd (err-ne-ok (rw (e, encrypt) at h))
  ]

  versions-destroy :
      (s : Store RsaKey EcKey) (name : Str) (v : StoredVersion RsaKey EcKey)
      → lookup name s.versions ≡ some v
      → (destroy_version s name).1.versions ≡ alter name erased s.versions
  unfolding destroy_version
  versions-destroy s name v found = rw (found, destroy_version)

  pub usable-destroy :
      (s : Store RsaKey EcKey) (name : Str) (v : StoredVersion RsaKey EcKey)
      → lookup name s.versions ≡ some v
      → usable (destroy_version s name).1 name ≡ err (bytes "version is not enabled")
  unfolding usable
  usable-destroy s name v found =
      rw
        (
          versions-destroy s name v found,
          lookup-alter name name erased s.versions,
          str_eq_refl name,
          found,
          usable,
        )
        (unfold erased in refl)

  -- Once a version is destroyed it encrypts, decrypts and signs nothing more; every other version
  -- is as it was.
  pub destroy_version_lem :
      (sha256 : List ℕ → List ℕ) (s : Store RsaKey EcKey) (name : Str)
      (v : StoredVersion RsaKey EcKey)
      → lookup name s.versions ≡ some v
      → ((input : List ℕ)
          → (encrypt (destroy_version s name).1 name input ≡ err (bytes "version is not enabled"))
            × (decrypt (destroy_version s name).1 name input ≡ err (bytes "version is not enabled"))
            × (mac_sign sha256 (destroy_version s name).1 name input
                ≡ err (bytes "version is not enabled")))
        × ((other : Str)
            → name ≢ other
            → lookup other (destroy_version s name).1.versions ≡ lookup other s.versions)
  unfolding encrypt decrypt mac_sign
  destroy_version_lem sha256 s name v found = (
    (λ input.
        let refused = usable-destroy s name v found in
        (rw (refused, encrypt), rw (refused, decrypt), rw (refused, mac_sign))),
    (λ other ne. rw (
      versions-destroy s name v found,
      lookup-alter name other erased s.versions,
      str_eq-false name other ne,
    )),
  )
