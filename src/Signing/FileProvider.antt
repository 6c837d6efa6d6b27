-- ===== src/Signing/FileProvider.antt =====
-- `encryptedFileProvider` (internal/signing/file_provider.go): a key in memory that is open until it is
-- closed. The file, age's decryption and the JSON of the envelope are parameters.
use unlock_catalog_publisher.Base.{
  ℕ, ◌≡◌, refl, Bool, true, false, not, ◌||◌, List, [], ◌∷◌, ◌++◌, ◌⊎◌, inl, inr, sym, ap,
  ok-injective, refuse_elim, or_fail_elim, Bytes, Option, codes, eqb, ltb, length, Result, ok, err,
  ◌>>=◌, ◌>>◌, refuse, or_fail, ◌==◌, all, map, subst, ◌∙◌, length-map, Bool-cases, if◌then◌else◌,
}
use unlock_catalog_publisher.Base.Int.{ℤ, pos, int_eq}
use unlock_catalog_publisher.Base.Patterns.{id_pattern}
use unlock_catalog_publisher.Signing.Types.{
  SigningError, provider_closed, passphrase_invalid, key_file_unreadable, identity_failed,
  decrypt_failed, key_too_long, key_undecodable, key_schema_invalid, key_id_invalid,
  seed_length_invalid,
}

-- `encryptedKeyEnvelope`
pub record EncryptedKeyEnvelope : Type 0 where
  pub schema_version : ℤ
  pub algorithm : Bytes
  pub key_id : Bytes
  pub seed : Bytes

-- `public` and `private` are what the two slices show, which is nothing when they are nil. The arrays behind
-- them stay in memory after that; each slice shows all of its array.
pub record EncryptedFileProvider : Type 0 where
  pub key_id : Bytes
  pub public : Bytes
  pub private : Bytes
  pub public_array : Bytes
  pub private_array : Bytes
  pub closed : Bool

-- `maxKeyPlaintextBytes` and `maxPassphraseBytes`: `4 << 10`; `ed25519.SeedSize`.
abbrev pub max_key_plaintext_bytes : ℕ
max_key_plaintext_bytes = 4096

abbrev pub max_passphrase_bytes : ℕ
max_passphrase_bytes = 4096

abbrev pub seed_size : ℕ
seed_size = 32

-- What the provider calls: `readOwnerOnlyFile`, `age.NewScryptIdentity` with `age.Decrypt` and the
-- reading of at most one byte more than is allowed, `decodeStrictJSON`, `NewKeyFromSeed` with its
-- public key, and `ed25519.Sign`.
pub record KeyTools : Type 0 where
  pub read_owner_only_file : Bytes → Option Bytes
  pub new_scrypt_identity : Bytes → Option Bytes
  pub decrypt : Bytes → Bytes → Option Bytes
  pub decode_envelope : Bytes → Option EncryptedKeyEnvelope
  pub new_key_from_seed : Bytes → Bytes
  pub public_of : Bytes → Bytes
  pub ed25519_sign : Bytes → Bytes → Bytes

module _ (T : KeyTools) where
  unfoldable pub open_encrypted_file_provider :
      Bytes → Bytes → Result SigningError EncryptedFileProvider
  open_encrypted_file_provider file_path passphrase = do
    refuse (eqb (length passphrase) 0 || ltb max_passphrase_bytes (length passphrase))
        passphrase_invalid
    encrypted ← or_fail (T.read_owner_only_file file_path) key_file_unreadable
    identity ← or_fail (T.new_scrypt_identity passphrase) identity_failed
    plaintext ← or_fail (T.decrypt encrypted identity) decrypt_failed
    refuse (ltb max_key_plaintext_bytes (length plaintext)) key_too_long
    envelope ← or_fail (T.decode_envelope plaintext) key_undecodable
    refuse
        (not (int_eq envelope.schema_version (pos 1))
          || not (envelope.algorithm == codes "Ed25519"))
        key_schema_invalid
    refuse (not (id_pattern envelope.key_id)) key_id_invalid
    refuse (not (eqb (length envelope.seed) seed_size)) seed_length_invalid
    let private_key = T.new_key_from_seed envelope.seed
    ok (record {
      key_id = envelope.key_id;
      public = T.public_of private_key;
      private = private_key;
      public_array = T.public_of private_key;
      private_array = private_key;
      closed = false;
    })

  -- `PublicKey`
  unfoldable pub public_key : EncryptedFileProvider → Result SigningError Bytes
  public_key provider = do refuse provider.closed provider_closed; ok provider.public

  -- `Sign`
  unfoldable pub sign : EncryptedFileProvider → Bytes → Result SigningError Bytes
  sign provider message = do
    refuse provider.closed provider_closed
    ok (T.ed25519_sign provider.private message)

-- `clearBytes`
unfoldable pub clear_bytes : Bytes → Bytes
clear_bytes = map λ c. 0

-- `Close`
unfoldable pub close : EncryptedFileProvider → EncryptedFileProvider
close provider = if provider.closed then provider else record provider {
  private_array = clear_bytes provider.private_array;
  public_array = clear_bytes provider.public_array;
  private = [];
  public = [];
  closed = true;
}

-- A call of the provider, and what is returned: nothing for `Close`.
pub data ProviderCall : Type 0 where
  ask_public_key : ProviderCall
  ask_sign : Bytes → ProviderCall
  ask_close : ProviderCall

-- The provider after calls, one after another, as the mutex makes them.
unfoldable pub after_calls : EncryptedFileProvider → List ProviderCall → EncryptedFileProvider
after_calls provider [] = provider
after_calls provider (ask_public_key ∷ calls) = after_calls provider calls
after_calls provider (ask_sign message ∷ calls) = after_calls provider calls
after_calls provider (ask_close ∷ calls) = after_calls (close provider) calls

-- The provider is closed, its slices are nil, and the arrays that held its keys hold zeros.
pub record IsWiped (provider : EncryptedFileProvider) : Type 0 where
  pub is_closed : provider.closed ≡ true
  pub no_private : provider.private ≡ []
  pub no_public : provider.public ≡ []
  pub private_zero : all (λ c. eqb c 0) provider.private_array ≡ true
  pub public_zero : all (λ c. eqb c 0) provider.public_array ≡ true

clear_bytes-zero : (s : Bytes) → all (λ c. eqb c 0) (clear_bytes s) ≡ true
unfolding clear_bytes all
clear_bytes-zero [] = refl
clear_bytes-zero (c ∷ s) = clear_bytes-zero s

close-IsWiped :
    (provider : EncryptedFileProvider)
    → (provider.closed ≡ false) ⊎ IsWiped provider
    → IsWiped (close provider)
unfolding close
close-IsWiped provider (inl h) = rw h (record {
  is_closed = refl;
  no_private = refl;
  no_public = refl;
  private_zero = clear_bytes-zero provider.private_array;
  public_zero = clear_bytes-zero provider.public_array;
})
close-IsWiped provider (inr w) =
    let still : close provider ≡ provider = simp w.is_closed refl in subst IsWiped (sym still) w

-- The arrays that held the keys are the same ones, whatever is called.
SameArrays : EncryptedFileProvider → EncryptedFileProvider → Type 0
SameArrays p q =
    (length q.private_array ≡ length p.private_array)
    × (length q.public_array ≡ length p.public_array)

close-SameArrays : (provider : EncryptedFileProvider) → SameArrays provider (close provider)
unfolding SameArrays close clear_bytes
close-SameArrays provider = elim (Bool-cases provider.closed) [
  | inl e ↦ rw e (refl, refl)
  | inr e ↦
      rw e (length-map (λ c. 0) provider.private_array, length-map (λ c. 0) provider.public_array)
]

after_calls-SameArrays :
    (provider : EncryptedFileProvider) (calls : List ProviderCall)
    → SameArrays provider (after_calls provider calls)
unfolding SameArrays after_calls
after_calls-SameArrays provider [] = (refl, refl)
after_calls-SameArrays provider (ask_public_key ∷ calls) = after_calls-SameArrays provider calls
after_calls-SameArrays provider (ask_sign message ∷ calls) = after_calls-SameArrays provider calls
after_calls-SameArrays provider (ask_close ∷ calls) =
    let (private, public) = after_calls-SameArrays (close provider) calls in
    let (same_private, same_public) = close-SameArrays provider in
    (private ∙ same_private, public ∙ same_public)

after_calls-IsWiped :
    (provider : EncryptedFileProvider) (calls : List ProviderCall)
    → IsWiped provider
    → IsWiped (after_calls provider calls)
unfolding after_calls
after_calls-IsWiped provider [] w = w
after_calls-IsWiped provider (ask_public_key ∷ calls) w = after_calls-IsWiped provider calls w
after_calls-IsWiped provider (ask_sign message ∷ calls) w = after_calls-IsWiped provider calls w
after_calls-IsWiped provider (ask_close ∷ calls) w =
    after_calls-IsWiped (close provider) calls (close-IsWiped provider (inr w))

after_calls-close :
    (provider : EncryptedFileProvider) (before after : List ProviderCall)
    → (provider.closed ≡ false) ⊎ IsWiped provider
    → IsWiped (after_calls provider (before ++ ask_close ∷ after))
unfolding after_calls
after_calls-close provider [] after w =
    after_calls-IsWiped (close provider) after (close-IsWiped provider w)
after_calls-close provider (ask_public_key ∷ before) after w =
    after_calls-close provider before after w
after_calls-close provider (ask_sign message ∷ before) after w =
    after_calls-close provider before after w
after_calls-close provider (ask_close ∷ before) after w =
    after_calls-close (close provider) before after (inr (close-IsWiped provider w))

module _ (T : KeyTools) where
  open-whole :
      (file_path passphrase : Bytes) {provider : EncryptedFileProvider}
      → open_encrypted_file_provider T file_path passphrase ≡ ok provider
      → (provider.closed ≡ false)
        × (provider.private_array ≡ provider.private)
        × (provider.public_array ≡ provider.public)
  unfolding open_encrypted_file_provider
  open-whole file_path passphrase {provider} h = refuse_elim _ _ _ h λ phrase h₁.
      or_fail_elim _ _ _ h₁ λ encrypted found h₂. or_fail_elim _ _ _ h₂ λ identity made h₃.
        or_fail_elim _ _ _ h₃ λ plaintext decrypted h₄. refuse_elim _ _ _ h₄ λ short h₅.
          or_fail_elim _ _ _ h₅ λ envelope decoded h₆. refuse_elim _ _ _ h₆ λ schema h₇.
            refuse_elim _ _ _ h₇ λ id h₈. refuse_elim _ _ _ h₈ λ seed out.
              subst
                (λ (p : EncryptedFileProvider).
                  (p.closed ≡ false) × (p.private_array ≡ p.private) × (p.public_array ≡ p.public))
                (ok-injective out) (refl, refl, refl)

  -- Once an opened provider has been closed, whatever calls came before and come after, the arrays of its private
  -- and of its public key, of the same length as ever, hold only zeros, and it gives neither a key nor a
  -- signature.
  pub open_encrypted_file_provider-close :
      (file_path passphrase : Bytes) (provider : EncryptedFileProvider)
      (before after : List ProviderCall) (message : Bytes)
      → open_encrypted_file_provider T file_path passphrase ≡ ok provider
      → let later = after_calls provider (before ++ ask_close ∷ after) in
        IsWiped later
        × (length later.private_array ≡ length provider.private)
        × (length later.public_array ≡ length provider.public)
        × (public_key T later ≡ err provider_closed)
        × (sign T later message ≡ err provider_closed)
  unfolding public_key sign SameArrays ◌>>◌
  open_encrypted_file_provider-close file_path passphrase provider before after message h =
      let (unclosed, private, public) = open-whole file_path passphrase h in
      let w = after_calls-close provider before after (inl unclosed) in
      let (same_private, same_public) =
        after_calls-SameArrays provider (before ++ ask_close ∷ after) in
      (
        w,
        same_private ∙ ap length private,
        same_public ∙ ap length public,
        rw w.is_closed refl,
        rw w.is_closed refl,
      )
