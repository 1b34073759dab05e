-- ===== src/Provider.antt =====
-- src/providers.rs: the endpoint pool and its circuit breaker. The semaphores only delay a call
-- and are not modelled; the clock is an argument where the source reads it.
pub mod Breaker
pub mod Ordering
use asrsub.Prelude.{
  ℕ, zero, suc, ◌+◌, ◌%◌, ◌^◌, Bool, true, false, not, ◌&&◌, List, [], ◌∷◌, Option, none, some, ltb,
  leb, if◌then◌else◌, is_nil, get_elem?, all, map, u32_mod, any,
}
use asrsub.Text.{Text}

pub record EndpointHealth : Type 0 where
  pub failures : ℕ
  -- epoch milliseconds
  pub banned_until : ℕ

abbrev pub fresh : EndpointHealth
fresh = record { failures = 0; banned_until = 0 }

unfoldable pub banned : EndpointHealth → ℕ → Bool
banned h now_ms = ltb now_ms h.banned_until

unfoldable pub record_success : EndpointHealth → EndpointHealth
record_success h = record { failures = 0; banned_until = h.banned_until }

-- `fetch_add` and the sums wrap.
unfoldable pub record_failure : ℕ → EndpointHealth → EndpointHealth
record_failure now_ms h =
    let n = (h.failures + 1) % u32_mod in
    if leb 3 n
    then record { failures = 0; banned_until = (now_ms + 60_000) % 2 ^ 64 }
    else record { failures = n; banned_until = h.banned_until }

-- The fields of `LlmProvider` and `WhisperProvider` that the calls of this library read; `api_key`
-- is the resolved key.
pub record LlmProvider : Type 0 where
  pub endpoint : Text
  pub model : Text
  pub api_key : Text
  pub thinking_param_accepted : Bool

pub record WhisperProvider : Type 0 where
  pub endpoint : Text
  pub model : Text
  pub api_key : Text

-- `health[i].banned(now)`; an index out of range makes the source panic, but `new_pool` makes one
-- entry for each endpoint and `update` keeps their number.
abbrev pub banned_at : List EndpointHealth → ℕ → ℕ → Bool
banned_at [] i now = false
banned_at (h ∷ hs) zero now = banned h now
banned_at (h ∷ hs) (suc i) now = banned_at hs i now

module _ {P : Type 0} where
  -- `.iter().enumerate()`
  abbrev pub enumerate : ℕ → List P → List (ℕ × P)
  enumerate i [] = []
  enumerate i (p ∷ ps) = (i, p) ∷ enumerate (suc i) ps

  abbrev pub usable : List EndpointHealth → ℕ → List (ℕ × P) → List (ℕ × P)
  usable health now [] = []
  usable health now ((i, p) ∷ ps) = elim (banned_at health i now) [
    | true ↦ usable health now ps
    | false ↦ (i, p) ∷ usable health now ps
  ]

  -- `ordered` and `ordered_whisper`
  unfoldable pub ordered_endpoints : List P → List EndpointHealth → ℕ → List (ℕ × P)
  ordered_endpoints endpoints health now =
      let v = usable health now (enumerate 0 endpoints) in
      if is_nil v then enumerate 0 endpoints else v

pub record Pool : Type 0 where
  pub providers : List LlmProvider
  pub health : List EndpointHealth
  pub whisper : List WhisperProvider
  pub whisper_health : List EndpointHealth

-- `new_with_timeouts`, from the file's models and its Whisper endpoints, the fallbacks last.
unfoldable pub new_pool : List LlmProvider → List WhisperProvider → Pool
new_pool models whisper = record {
  providers = models;
  health = map (λ _. fresh) models;
  whisper = whisper;
  whisper_health = map (λ _. fresh) whisper;
}

unfoldable pub ordered : Pool → ℕ → List (ℕ × LlmProvider)
ordered pool now = ordered_endpoints pool.providers pool.health now

unfoldable pub ordered_whisper : Pool → ℕ → List (ℕ × WhisperProvider)
ordered_whisper pool now = ordered_endpoints pool.whisper pool.whisper_health now

unfoldable pub whisper_banned : Pool → ℕ → Bool
whisper_banned pool now = not (is_nil pool.whisper) && all (λ h. banned h now) pool.whisper_health

-- An update of the health with the given index.
unfoldable pub update :
    (EndpointHealth → EndpointHealth) → ℕ → List EndpointHealth → List EndpointHealth
update f i [] = []
update f zero (h ∷ hs) = f h ∷ hs
update f (suc i) (h ∷ hs) = h ∷ update f i hs

-- What a caller reports of an endpoint.
pub data Event : Type 0 where
  success : Event
  failure : ℕ → Event

unfoldable pub on_event : Event → EndpointHealth → EndpointHealth
unfolding record_success record_failure
on_event success h = record_success h
on_event (failure now_ms) h = record_failure now_ms h

-- `record_success`, `record_failure` and their Whisper twins on the pool.
unfoldable pub record_llm : ℕ → Event → Pool → Pool
record_llm idx e pool = record {
  providers = pool.providers;
  health = update (on_event e) idx pool.health;
  whisper = pool.whisper;
  whisper_health = pool.whisper_health;
}

unfoldable pub record_whisper : ℕ → Event → Pool → Pool
record_whisper idx e pool = record {
  providers = pool.providers;
  health = pool.health;
  whisper = pool.whisper;
  whisper_health = update (on_event e) idx pool.whisper_health;
}
