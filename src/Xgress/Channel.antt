-- ===== src/Xgress/Channel.antt =====
-- What the package uses of github.com/hanzozt/channel: a message is a content type, a map of
-- headers and a body, and numbers are put into headers and got out of them as bytes.
use sdk_golang.Common.{ℕ, ◌<◌, ◌≡◌, ◌⊎◌, Option, none, some, List, []}
use sdk_golang.Common.Words.{IsU16, IsU32, IsU64}
use sdk_golang.Common.Map.{lookup, insert}

pub record Message : Type 0 where
  pub content_type : ℕ
  pub headers : List (ℕ × List ℕ)
  pub body : List ℕ

-- The library's header encodings, its raw content type and its heartbeat header. A number that is
-- put into a header is got back; the heartbeat header lies outside the keys of this package.
pub record Channel : Type 0 where
  pub content_type_raw : ℕ
  pub heartbeat_header : ℕ
  pub bytes_of_uint16 : ℕ → List ℕ
  pub bytes_of_uint32 : ℕ → List ℕ
  pub bytes_of_uint64 : ℕ → List ℕ
  pub bytes_of_string : List ℕ → List ℕ
  pub uint16_of_bytes : List ℕ → Option ℕ
  pub uint32_of_bytes : List ℕ → Option ℕ
  pub uint64_of_bytes : List ℕ → Option ℕ
  pub get_put_uint16 : (v : ℕ) → IsU16 v → uint16_of_bytes (bytes_of_uint16 v) ≡ some v
  pub get_put_uint32 : (v : ℕ) → IsU32 v → uint32_of_bytes (bytes_of_uint32 v) ≡ some v
  pub get_put_uint64 : (v : ℕ) → IsU64 v → uint64_of_bytes (bytes_of_uint64 v) ≡ some v
  pub string_as_bytes : (s : List ℕ) → bytes_of_string s ≡ s
  pub heartbeat_apart : (heartbeat_header < 2000) ⊎ (2261 < heartbeat_header)

-- GetUint32Header and its kin answer `none` where the header is missing or of another length.
abbrev pub get_header : (List ℕ → Option ℕ) → ℕ → Message → Option ℕ
get_header decode k msg = elim (lookup k msg.headers) [ none ↦ none | some bytes ↦ decode bytes ]

-- msg.Headers[k] = v, and PutUint32Header and its kin.
abbrev pub put_header : ℕ → List ℕ → Message → Message
put_header k v msg = record msg { headers = insert k v msg.headers }

abbrev pub new_message : ℕ → List ℕ → Message
new_message content_type body = record { content_type = content_type; headers = []; body = body }
