-- ===== src/Api/Session.antt =====
-- internal/api/session.go and internal/api/generation.go: the CSRF nonce and the current generation,
-- both only in memory. Randomness is an argument, `none` where the reader fails.
pub mod Nonces
use kubepeep.Base.{
  ℕ, ◌+◌, ◌*◌, String, str_eq, Bool, true, false, not, ◌&&◌, ◌||◌, Option, none, some, leb, ltb,
  ◌==◌, if◌then◌else◌,
}

-- Eight hours, in nanoseconds.
abbrev pub max_session_ttl : ℕ
max_session_ttl = 28800000000000

pub record SessionStore : Type 0 where
  pub ttl : ℕ
  pub token : String
  pub generation : String
  pub expires_at : ℕ

pub record SessionData : Type 0 where
  pub csrf_token : String
  pub origin : String
  pub generation : String
  pub expires_at : ℕ

-- A time to live above the maximum is refused, and 0 stands for the maximum.
unfoldable pub new_session_store : ℕ → Option SessionStore
new_session_store ttl =
    let used = if ttl == 0 then max_session_ttl else ttl in
    if ltb max_session_ttl used
    then none
    else some (record { ttl = used; token = ""; generation = ""; expires_at = 0 })

-- `io.ReadFull` and the encoding give the nonce, or fail and leave the store as it was.
rotate_locked : Option String → String → ℕ → SessionStore → SessionStore × Bool
rotate_locked none generation now s = (s, false)
rotate_locked (some nonce) generation now s =
    (record s { token = nonce; generation = generation; expires_at = now + s.ttl }, true)

-- The result says whether the rotation succeeded.
unfoldable pub rotate : Option String → String → ℕ → SessionStore → SessionStore × Bool
unfolding rotate_locked
rotate nonce generation now s =
    if str_eq generation "" then (s, false) else rotate_locked nonce generation now s

session_data : String → SessionStore × Bool → SessionStore × Option SessionData
session_data origin (s, false) = (s, none)
session_data origin (s, true) = (
  s,
  some (record {
    csrf_token = s.token;
    origin = origin;
    generation = s.generation;
    expires_at = s.expires_at;
  }),
)

unfoldable pub current :
    String → String → Option String → ℕ → SessionStore → SessionStore × Option SessionData
unfolding rotate_locked session_data
current origin generation nonce now s =
    let renewed = rotate_locked nonce generation now s in
    if str_eq generation ""
    then (s, none)
    else if str_eq s.token "" || not (str_eq s.generation generation) || leb s.expires_at now
    then session_data origin renewed
    else session_data origin (s, true)

unfoldable pub validate : String → String → ℕ → SessionStore → Bool
validate token generation now s =
    if str_eq token ""
      || str_eq generation ""
      || str_eq s.token ""
      || not (str_eq s.generation generation)
      || leb s.expires_at now
    then false
    else str_eq token s.token

pub record GenerationStore : Type 0 where
  pub current_generation : String

pub rotate_generation : Option String → GenerationStore → GenerationStore × Option String
rotate_generation none g = (g, none)
rotate_generation (some next) g = (record { current_generation = next }, some next)

pub new_generation_store : Option String → Option GenerationStore
new_generation_store none = none
new_generation_store (some generation) = some (record { current_generation = generation })

pub generation_of : GenerationStore → String
generation_of g = g.current_generation
