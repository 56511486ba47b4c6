-- ===== src/Api/Session/Nonces.antt =====
-- Which nonces of internal/api/session.go are accepted, and for how long.
use kubepeep.Base.{ℕ, ◌+◌, ◌≤◌, ◌<◌, ◌≡◌, ◌≢◌, ◌↔◌, String, eq_iff, true, Option, none, some, arith}
use kubepeep.Api.Session.{SessionStore, SessionData, current, validate}

-- The nonce that `Current` hands out for a generation is accepted with that generation until it
-- expires, and no later; no other nonce and no other generation is accepted by that store. The nonce
-- that the random source gives is not empty.
pub current-validate :
    (origin generation token claimed nonce : String) (now later : ℕ) (s : SessionStore)
    (d : SessionData)
    → nonce ≢ ""
    → (current origin generation (some nonce) now s).1 ≡ some d
    → (validate token claimed later (current origin generation (some nonce) now s).0 ≡ true)
      ↔ ((token ≡ d.csrf_token) × (claimed ≡ generation) × (later < d.expires_at))
unfolding current validate
current-validate origin generation token claimed nonce now later s d h e = (
  λ v. ground (
    arith,
    h,
    eq_iff generation "",
    eq_iff s.token "",
    eq_iff s.generation generation,
    eq_iff nonce "",
    eq_iff token "",
    eq_iff claimed "",
    eq_iff token s.token,
    eq_iff token nonce,
    eq_iff s.generation claimed,
    eq_iff generation claimed,
  ),
  λ v. ground (
    arith,
    h,
    v,
    eq_iff generation "",
    eq_iff s.token "",
    eq_iff s.generation generation,
    eq_iff nonce "",
    eq_iff token "",
    eq_iff claimed "",
    eq_iff token s.token,
    eq_iff token nonce,
    eq_iff s.generation claimed,
    eq_iff generation claimed,
  ),
)

-- A session that `Current` hands out is for the generation that was asked for, has not expired, and
-- lives no longer than the store's time to live, whether it is the stored one or a new one.
current_lifetime :
    (origin generation : String) (nonce : Option String) (now : ℕ) (s : SessionStore)
    (d : SessionData)
    → 0 < s.ttl
    → s.expires_at ≤ now + s.ttl
    → (current origin generation nonce now s).1 ≡ some d
    → (now < d.expires_at) × (d.expires_at ≤ now + s.ttl) × (d.generation ≡ generation)
unfolding current
current_lifetime origin generation none now s d p b e =
    ground (arith, eq_iff s.generation generation)
current_lifetime origin generation (some nonce) now s d p b e =
    ground (arith, eq_iff s.generation generation)
