-- ===== src/Idempotency/Fingerprint.antt =====
-- What the hasher is fed determines the request.
use high_performance_ledger.Prelude.{
  ℕ, zero, suc, ◌^◌, ◌/◌, ◌%◌, ◌<◌, ◌≡◌, refl, sym, ◌∙◌, ap, List, [], ◌∷◌, ◌++◌, arith,
}
use high_performance_ledger.Prelude.Lists.{length, length-append}
use high_performance_ledger.Prelude.Int.{ℤ, IsI64}
use high_performance_ledger.Prelude.Text.{Text, codes}
use high_performance_ledger.Database.{Uuid}
use high_performance_ledger.Idempotency.{
  be_bytes, uuid_bytes, bits_64, i64_bytes, account_creation_input, transfer_input,
}

-- Two sequences of which the first parts are of one length.
append_injective : (a b c d : List ℕ) → length a ≡ length b → a ++ c ≡ b ++ d → (a ≡ b) × (c ≡ d)
append_injective [] [] c d h e = (refl, e)
append_injective [] (y ∷ b) c d h e = ground arith
append_injective (x ∷ a) [] c d h e = ground arith
append_injective (x ∷ a) (y ∷ b) c d h e =
    let (front, back) = append_injective a b c d (ground arith) cc in (ground arith, back)

length-be_bytes : (k n : ℕ) → length (be_bytes k n) ≡ k
unfolding be_bytes
length-be_bytes zero n = refl
length-be_bytes (suc k) n =
    length-append (be_bytes k (n / 256)) _ ∙ ground (arith, length-be_bytes k (n / 256))

-- Numbers that fit are told apart by their bytes.
be_bytes_injective : (k m n : ℕ) → m < 256 ^ k → n < 256 ^ k → be_bytes k m ≡ be_bytes k n → m ≡ n
unfolding be_bytes
be_bytes_injective zero m n h l e = omega arith
be_bytes_injective (suc k) m n h l e =
    let (front, back) =
      append_injective (be_bytes k (m / 256)) (be_bytes k (n / 256)) _ _
        (length-be_bytes k (m / 256) ∙ sym (length-be_bytes k (n / 256))) e in
    let high = be_bytes_injective k (m / 256) (n / 256) (omega arith) (omega arith) front in
    let low : m % 256 ≡ n % 256 = ground arith in omega arith

bits_64_injective : (a b : ℤ) → IsI64 a → IsI64 b → bits_64 a ≡ bits_64 b → a ≡ b
bits_64_injective a b h k e = ground arith

bits_64_fits : (a : ℤ) → IsI64 a → bits_64 a < 256 ^ 8
bits_64_fits a h = ground arith

-- The common prefix of two texts.
prefix_injective : (p a b : List ℕ) → p ++ a ≡ p ++ b → a ≡ b
prefix_injective p a b e = (append_injective p p a b refl e).1

-- The texts in front of parts of one length.
suffix-length : (a b c d : List ℕ) → length c ≡ length d → a ++ c ≡ b ++ d → length a ≡ length b
suffix-length a b c d h e = omega (arith, length-append a c, length-append b d, ap length e)

-- What is hashed for a transfer determines the two accounts, the currency and the amount, if the
-- ids are of 128 bits and the amounts are of `i64`.
pub transfer_input_injective :
    (source destination source' destination' : Uuid) (currency currency' : Text)
    (amount amount' : ℤ)
    → (source < 256 ^ 16) × (destination < 256 ^ 16)
    → (source' < 256 ^ 16) × (destination' < 256 ^ 16)
    → IsI64 amount
    → IsI64 amount'
    → transfer_input source destination currency amount
      ≡ transfer_input source' destination' currency' amount'
    → (source ≡ source')
      × (destination ≡ destination')
      × (currency ≡ currency')
      × (amount ≡ amount')
transfer_input_injective s d s' d' c c' a a' (hs, hd) (hs', hd') ha ha' e =
    let rest = prefix_injective (codes "transfer:v1:") _ _ e in
    let (es, rest') =
      append_injective (uuid_bytes s) (uuid_bytes s') _ _
        (length-be_bytes 16 s ∙ sym (length-be_bytes 16 s')) rest in
    let (ed, rest'') =
      append_injective (uuid_bytes d) (uuid_bytes d') _ _
        (length-be_bytes 16 d ∙ sym (length-be_bytes 16 d')) rest' in
    let (ec, ea) =
      append_injective c c' _ _
        (suffix-length c c' (i64_bytes a) (i64_bytes a')
          (length-be_bytes 8 (bits_64 a) ∙ sym (length-be_bytes 8 (bits_64 a'))) rest'')
        rest'' in
    (
      be_bytes_injective 16 s s' hs hs' es,
      be_bytes_injective 16 d d' hd hd' ed,
      ec,
      bits_64_injective a a' ha ha' (
          be_bytes_injective 8 (bits_64 a) (bits_64 a') (bits_64_fits a ha) (bits_64_fits a' ha')
            ea),
    )

-- What is hashed for the opening of an account determines its currency and its balance, if the
-- balances are of `i64`.
pub account_creation_input_injective :
    (currency currency' : Text) (balance balance' : ℤ)
    → IsI64 balance
    → IsI64 balance'
    → account_creation_input currency balance ≡ account_creation_input currency' balance'
    → (currency ≡ currency') × (balance ≡ balance')
account_creation_input_injective c c' a a' ha ha' e =
    let rest = prefix_injective (codes "account_creation:v1:") _ _ e in
    let parts = codes ":" in
    let same : length (parts ++ i64_bytes a) ≡ length (parts ++ i64_bytes a') =
      ap suc (length-be_bytes 8 (bits_64 a) ∙ sym (length-be_bytes 8 (bits_64 a'))) in
    let (ec, tail) =
      append_injective c c' _ _
        (suffix-length c c' (parts ++ i64_bytes a) (parts ++ i64_bytes a') same rest) rest in
    (
      ec,
      bits_64_injective a a' ha ha' (
          be_bytes_injective 8 (bits_64 a) (bits_64 a') (bits_64_fits a ha) (bits_64_fits a' ha')
            (prefix_injective parts _ _ tail)),
    )
