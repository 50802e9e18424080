-- ===== src/Observability/Requests.antt =====
-- src/observability.rs: the id of a request, and the labels of its metrics. The text of a header and
-- a fresh id are parameters.
use high_performance_ledger.Prelude.{
  ℕ, ◌/◌, ◌≡◌, Bool, true, ◌&&◌, Option, none, some, List, [], ◌∷◌, leb, Bool-cases, inl, inr,
  if◌then◌else◌, ◌==◌,
}
use high_performance_ledger.Prelude.Lists.{length, all}
use high_performance_ledger.Prelude.Text.{Text, codes, ◌=t◌}

abbrev pub valid_request_id : Text → Bool
valid_request_id value =
    (leb 1 (length value) && leb (length value) 128)
    && all (λ byte. leb 0x21 byte && leb byte 0x7e) value

-- The values of the header `x-request-id`, each as a text if it has one.
unfoldable pub effective_request_id : Text → List (Option Text) → Text
effective_request_id new_request_id [] = new_request_id
effective_request_id new_request_id (none ∷ []) = new_request_id
effective_request_id new_request_id (some value ∷ []) =
    if valid_request_id value then value else new_request_id
effective_request_id new_request_id (value ∷ other ∷ values) = new_request_id

unfoldable pub status_class : ℕ → Text
status_class status = class (status / 100)
  where
    class : ℕ → Text
    class hundreds =
        if hundreds == 2
        then codes "2xx"
        else if hundreds == 3
        then codes "3xx"
        else if hundreds == 4
        then codes "4xx"
        else codes "5xx"

abbrev pub methods : List Text
methods =
    codes "GET"
    ∷ codes "POST"
    ∷ codes "PUT"
    ∷ codes "PATCH"
    ∷ codes "DELETE"
    ∷ codes "HEAD"
    ∷ codes "OPTIONS"
    ∷ codes "CONNECT"
    ∷ codes "TRACE"
    ∷ []

unfoldable pub find_method : Text → List Text → Text
find_method method [] = codes "OTHER"
find_method method (m ∷ ms) = if method =t m then m else find_method method ms

unfoldable pub normalized_method : Text → Text
normalized_method method = find_method method methods

-- The id of a request is 1 to 128 visible ASCII characters, whatever the client sends, if a fresh id
-- is.
pub valid_request_id-effective_request_id :
    (new_request_id : Text) (values : List (Option Text))
    → valid_request_id new_request_id ≡ true
    → valid_request_id (effective_request_id new_request_id values) ≡ true
unfolding effective_request_id
valid_request_id-effective_request_id new [] h = h
valid_request_id-effective_request_id new (none ∷ []) h = h
valid_request_id-effective_request_id new (some value ∷ []) h =
    elim (Bool-cases (valid_request_id value)) [ inl good ↦ rw good good | inr bad ↦ rw bad h ]
valid_request_id-effective_request_id new (value ∷ other ∷ values) h = h
