-- ===== src/Auth.antt =====
-- src/auth.rs: the client of a request, from its Authorization header. The text of a header and the
-- checks of a token (signature, issuer, audience, expiry), which yield its `sub`, are parameters.
use high_performance_ledger.Prelude.{
  ℕ, ◌≡◌, refl, sym, ap, ◌∙◌, Bool, Bool-cases, true, false, not, ◌&&◌, ◌||◌, append-nil,
  append_assoc, Option, none, some, List, [], ◌∷◌, ◌++◌, map, arith, Option-cases, inl, inr,
  if◌then◌else◌, ◌==◌,
}
use high_performance_ledger.Prelude.Lists.{is_empty, all, all-append}
use high_performance_ledger.Prelude.Text.{Text, codes, trim, to_upper, ◌=t◌, =t_sound}
use high_performance_ledger.Prelude.Result.{Result, ok, err, ◌>>=◌, ok_or}
use high_performance_ledger.ApiError.{AppError, unauthorized}

-- The text of a header has no white space but blanks and tabs.
abbrev pub is_blank : ℕ → Bool
is_blank c = (c == 32) || (c == 9)

abbrev pub cons_word : Text → List Text → List Text
cons_word [] ws = ws
cons_word (c ∷ word) ws = (c ∷ word) ∷ ws

-- `str::split_whitespace`, with the word that is being read
unfoldable pub split_whitespace : Text → Text → List Text
split_whitespace word [] = cons_word word []
split_whitespace word (c ∷ s) = elim (is_blank c) [
  | true ↦ cons_word word (split_whitespace [] s)
  | false ↦ split_whitespace (word ++ c ∷ []) s
]

abbrev pub is_inside : ℕ → Bool
is_inside c = not (is_blank c)

abbrev pub is_word : Text → Bool
is_word word = not (is_empty word) && all is_inside word

-- A word ends before a blank, and at the end of the text.
abbrev pub ends_word : Text → Bool
ends_word [] = true
ends_word (c ∷ s) = is_blank c

-- A scheme and a token, and nothing else.
abbrev pub bearer_token : List Text → Result AppError Text
bearer_token (scheme ∷ token ∷ []) =
    if map to_upper scheme =t codes "BEARER" then ok token else err unauthorized
bearer_token [] = err unauthorized
bearer_token (scheme ∷ []) = err unauthorized
bearer_token (scheme ∷ token ∷ other ∷ words) = err unauthorized

-- `AuthVerifier::authenticate`
abbrev pub named : Option Text → Result AppError Text
named none = err unauthorized
named (some client_id) = if is_empty (trim client_id) then err unauthorized else ok client_id

unfoldable pub authenticate : (Text → Option (Option Text)) → Text → Result AppError Text
authenticate decode token = ok_or (decode token) unauthorized >>= named

-- `AuthenticatedClient::from_request_parts`, on the values of the header
unfoldable pub from_request_parts :
    (Text → Option Text) → (Text → Option (Option Text)) → List Text → Result AppError Text
from_request_parts to_str decode [] = err unauthorized
from_request_parts to_str decode (header ∷ []) = ok_or (to_str header) unauthorized >>= λ value.
    bearer_token (split_whitespace [] value) >>= authenticate decode
from_request_parts to_str decode (header ∷ other ∷ headers) = err unauthorized

-- The text is the words in this order, with blanks between them and perhaps around them.
abbrev pub IsSpaced : List Text → Text → Type 0
IsSpaced [] s = all is_blank s ≡ true
IsSpaced (word ∷ words) s =
    (before : Text) × (rest : Text) × (s ≡ before ++ (word ++ rest))
    × (all is_blank before ≡ true)
    × (is_word word ≡ true)
    × (ends_word rest ≡ true)
    × IsSpaced words rest

-- A word that is being read goes on to the next blank.
split_whitespace-word :
    (c : ℕ) (word s : Text) (words : List Text)
    → is_word (c ∷ word) ≡ true
    → split_whitespace (c ∷ word) s ≡ words
    → (more : Text) × (rest : Text) × (others : List Text) × (s ≡ more ++ rest)
      × (words ≡ ((c ∷ word) ++ more) ∷ others)
      × (is_word ((c ∷ word) ++ more) ≡ true)
      × (ends_word rest ≡ true)
      × (split_whitespace [] rest ≡ others)
unfolding split_whitespace
split_whitespace-word c word [] words h e =
    ([], [], [], refl, rw (append-nil word) (sym e), rw (append-nil word) h, refl, refl)
split_whitespace-word c word (d ∷ s) words h e = elim (Bool-cases (is_blank d)) [
  | inl blank ↦ (
    [],
    d ∷ s,
    split_whitespace [] s,
    refl,
    ground (arith, append-nil word),
    rw (append-nil word) h,
    blank,
    ground arith,
  )
  | inr inside ↦
      let (more, rest, others, cut, is, whole, ends, left) =
        split_whitespace-word c (word ++ d ∷ []) s words
          (ground (arith, all-append is_inside word (d ∷ []))) (ground arith) in
      (
        d ∷ more,
        rest,
        others,
        ap (λ x. d ∷ x) cut,
        is ∙ ap (λ x. (c ∷ x) ∷ others) (append_assoc word (d ∷ []) more),
        sym (ap (λ x. is_word (c ∷ x)) (append_assoc word (d ∷ []) more)) ∙ whole,
        ends,
        left,
      )
]

split_whitespace-skip :
    (s word : Text) (words : List Text)
    → split_whitespace [] s ≡ word ∷ words
    → (before : Text) × (rest : Text) × (s ≡ before ++ (word ++ rest))
      × (all is_blank before ≡ true)
      × (is_word word ≡ true)
      × (ends_word rest ≡ true)
      × (split_whitespace [] rest ≡ words)
unfolding split_whitespace
split_whitespace-skip [] word words e = ground arith
split_whitespace-skip (d ∷ s) word words e = elim (Bool-cases (is_blank d)) [
  | inl blank ↦
      let (before, rest, cut, blanks, whole, ends, left) =
        split_whitespace-skip s word words (ground arith) in
      (d ∷ before, rest, ap (λ x. d ∷ x) cut, ground arith, whole, ends, left)
  | inr inside ↦
      let (more, rest, others, cut, is, whole, ends, left) =
        split_whitespace-word d [] s (word ∷ words) (ground arith) (ground arith) in
      let first : word ≡ d ∷ more = ground arith in
      let others_are : others ≡ words = ground arith in
      (
        [],
        rest,
        ap (λ x. d ∷ x) cut ∙ ap (λ x. x ++ rest) (sym first),
        refl,
        rw first whole,
        ends,
        left ∙ others_are,
      )
]

all_blank : (s : Text) → split_whitespace [] s ≡ [] → all is_blank s ≡ true
unfolding split_whitespace
all_blank [] e = refl
all_blank (d ∷ s) e = elim (Bool-cases (is_blank d)) [
  | inl blank ↦ let rest = all_blank s (ground arith) in ground arith
  | inr inside ↦
      let (more, rest, others, cut, is, whole, ends, left) =
        split_whitespace-word d [] s [] (ground arith) (ground arith) in
      ground arith
]

-- What `split_whitespace` finds are the words of the text.
pub split_whitespace-IsSpaced :
    (words : List Text) (s : Text) → split_whitespace [] s ≡ words → IsSpaced words s
split_whitespace-IsSpaced [] s e = all_blank s e
split_whitespace-IsSpaced (word ∷ words) s e =
    let (before, rest, cut, blanks, whole, ends, left) = split_whitespace-skip s word words e in
    (before, rest, cut, blanks, whole, ends, split_whitespace-IsSpaced words rest left)

-- How a request names its client: it has one Authorization header, the text of which is the word
-- Bearer, in letters of any case, and a token; the token is valid and names the client, and the name is
-- not blank.
pub record IsAuthenticated (to_str : Text → Option Text) (decode : Text → Option (Option Text))
    (headers : List Text) (client_id : Text) : Type 0 where
  pub header : Text
  pub value : Text
  pub scheme : Text
  pub token : Text
  pub only : headers ≡ header ∷ []
  pub readable : to_str header ≡ some value
  pub spaced : IsSpaced (scheme ∷ token ∷ []) value
  pub bearer : map to_upper scheme ≡ codes "BEARER"
  pub valid : decode token ≡ some (some client_id)
  pub named_client : is_empty (trim client_id) ≡ false

-- A client is known only by the token of the one Authorization header: the text of the header is the
-- word Bearer, in letters of any case, and the token, with blanks between them and perhaps around them;
-- the token is valid and names the client, and the name is not blank.
pub from_request_parts_sound :
    (to_str : Text → Option Text) (decode : Text → Option (Option Text)) (headers : List Text)
    (client_id : Text)
    → from_request_parts to_str decode headers ≡ ok client_id
    → IsAuthenticated to_str decode headers client_id
unfolding from_request_parts authenticate
from_request_parts_sound to_str decode [] c h = ground arith
from_request_parts_sound to_str decode (header ∷ other ∷ headers) c h = ground arith
from_request_parts_sound to_str decode (header ∷ []) c h = elim (Option-cases (to_str header)) [
  | inl unreadable ↦ ground arith
  | inr (value, readable) ↦ by_words value readable (split_whitespace [] value) refl (ground arith)
]
  where
    by_words :
        (value : Text)
        → to_str header ≡ some value
        → (words : List Text) → split_whitespace [] value ≡ words
        → (bearer_token words >>= authenticate decode) ≡ ok c
        → IsAuthenticated to_str decode (header ∷ []) c
    by_words value readable [] split e = ground arith
    by_words value readable (scheme ∷ []) split e = ground arith
    by_words value readable (scheme ∷ token ∷ []) split e = record {
      header = header;
      value = value;
      scheme = scheme;
      token = token;
      only = refl;
      readable = readable;
      spaced = split_whitespace-IsSpaced (scheme ∷ token ∷ []) value split;
      bearer = ground (arith, =t_sound (map to_upper scheme) (codes "BEARER"));
      valid = ground arith;
      named_client = ground arith;
    }
    by_words value readable (scheme ∷ token ∷ other ∷ words) split e = ground arith
