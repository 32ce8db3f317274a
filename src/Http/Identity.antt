-- ===== src/Http/Identity.antt =====
-- The headers that the gateway sends (gateway/common/http_forwarder.hpp) and the backend stores
-- (backend/main.cpp): which value X-User-Id and Content-Length have.
use paid_server.Base.{
  ℕ, ◌^◌, ◌<◌, ◌≡◌, refl, ◌∙◌, Text, text, same, same_iff, empty, [], ◌∷◌, ◌++◌, Option, none, some,
  if◌then◌else◌, All, arith, length,
}
use paid_server.Base.Map.{text_eq}
use paid_server.Database.Monad.{ok}
use paid_server.Strings.{Headers, header_value, to_lower, to_string}
use paid_server.Settings.Numbers.{skip_spaces}
use paid_server.Gateway.Forwarder.{copied, unless_empty, content_type_header}
use paid_server.Gateway.Access.{Other}
use paid_server.Http.{insert, text_lt}
use paid_server.Http.Numbers.{stoul}
use paid_server.Http.Stored.{stored, inserted, stoul-to_string}

-- Lists of headers that have a property, whatever their values are.
module _ (P : Text × Text → Type 0) (key : Text) (h : (v : Text) → P (key, v)) where
  pub unless_empty-All : (v : Text) → All P (unless_empty key v)
  unless_empty-All [] = tt
  unless_empty-All (c ∷ v) = (h (c ∷ v), tt)

  pub copied-All : (v : Option Text) → All P (copied key v)
  copied-All none = tt
  copied-All (some v) = unless_empty-All v

pub content_type_header-All :
    (P : Text × Text → Type 0)
    → ((v : Text) → P (text "Content-Type", v))
    → (body : Text) (v : Option Text) → All P (content_type_header body v)
unfolding content_type_header
content_type_header-All P h body (some v) = (h v, tt)
content_type_header-All P h [] none = tt
content_type_header-All P h (c ∷ body) none = (h _, tt)

header_value-insert :
    (k v : Text) (m : Headers)
    → Other (k, v)
    → header_value (insert k v m) (text "X-User-Id") ≡ header_value m (text "X-User-Id")
unfolding header_value insert
header_value-insert k v [] o = ground (arith, o)
header_value-insert k v ((j, w) ∷ m) o =
    ground (arith, o, same_iff j k, header_value-insert k v m o)

pub inserted-append : (hs ts m : Headers) → inserted (hs ++ ts) m ≡ inserted ts (inserted hs m)
inserted-append [] ts m = refl
inserted-append ((k, v) ∷ hs) ts m = inserted-append hs ts (insert k v m)

pub header_value-inserted :
    (hs m : Headers)
    → All Other hs
    → header_value (inserted hs m) (text "X-User-Id") ≡ header_value m (text "X-User-Id")
header_value-inserted [] m o = refl
header_value-inserted ((k, v) ∷ hs) m (o, os) =
    header_value-inserted hs (insert k v m) os ∙ header_value-insert k v m o

length_header :
    (v : Text) (m : Headers) {n : ℕ}
    → stoul v ≡ ok n
    → stored (unless_empty (text "Content-Length") v) (m, 0)
      ≡ ok (inserted (unless_empty (text "Content-Length") v) m, n)
unfolding same text stoul skip_spaces
length_header [] m e = cc
length_header (c ∷ v) m e = rw e refl

pub length_value :
    (body : Text) (m : Headers)
    → length body < 2 ^ 64
    → stored
        (unless_empty (text "Content-Length") (if empty body then [] else to_string (length body)))
        (m, 0)
      ≡ ok (
        inserted
            (unless_empty
              (text "Content-Length")
              (if empty body then [] else to_string (length body)))
            m,
        length body,
      )
length_value [] m b = refl
length_value (c ∷ body) m b =
    length_header (to_string (length (c ∷ body))) m (stoul-to_string (length (c ∷ body)) b)

pub identity_value :
    (host user_id : Text)
    → header_value
        (inserted
          (unless_empty (text "X-User-Id") user_id)
          (insert (text "Connection") (text "close") (insert (text "Host") host [])))
        (text "X-User-Id")
      ≡ user_id
unfolding header_value same text to_lower insert text_lt
identity_value host [] = refl
identity_value host (c ∷ user_id) = refl
