-- ===== src/Backend/Access.antt =====
-- Who may do what, and which bodies are accepted (env/backend/app/main.py).
use Prim.Native.String.{String}
use text.Mathlib.TextEquality.{eq_iff}
use mathlib.Core.Option
use vehicle_bench_candidate.Base.{
  ℕ, ◌*◌, ◌^◌, ◌≡◌, ◌≢◌, ◌⊎◌, inl, inr, refl, true, false, Option, none, some, arith, Bool-cases,
  ◌&&◌, ◌||◌, ◌==◌, if◌then◌else◌,
}
use vehicle_bench_candidate.Base.Int.{ℤ, pos, ◌≤ℤ◌, leb_ℤ}
use vehicle_bench_candidate.Base.Dict.{lookup, lookup-insert}
use vehicle_bench_candidate.Base.Dyadic.{Dyadic, whole, at_least, at_most}
use vehicle_bench_candidate.Gateway.Types.{CommandBody, Params}
use vehicle_bench_candidate.Backend.Store.{
  Store, Response, ok, unauthorized, unprocessable, CommandType, command_text,
}
use vehicle_bench_candidate.Backend.Commands.{
  Config, Request, accepted_record, TcuAnswer, key_matches, serve, route, get_command, bench_reset,
  dispatch_begin,
}
use vehicle_bench_candidate.Backend.Status.{vehicle_status, list_commands}

key_matches-false :
    (cfg : Config) (key : Option String) → key ≢ some cfg.api_key → key_matches cfg key ≡ false
key_matches-false cfg none h = refl
key_matches-false cfg (some k) h = ground (arith, eq_iff k cfg.api_key)

pub key_matches_self : (cfg : Config) → key_matches cfg (some cfg.api_key) ≡ true
key_matches_self cfg = (eq_iff cfg.api_key cfg.api_key).1 refl

-- A request whose key is missing or is not the configured one is answered 401 by every command
-- endpoint, by the status, by the list and the lookup of commands and by the bench reset, and
-- leaves the store as it is.
pub wrong_key_rejected :
    (cfg : Config) (key : Option String) (store : Store)
    → key ≢ some cfg.api_key
    → ((id now : ℕ) (request : Request)
        → serve cfg key id now request store ≡ (unauthorized, store))
      × ((now : ℕ) → vehicle_status cfg key now store ≡ (unauthorized, store))
      × ((limit : ℤ) → list_commands cfg key limit store ≡ (unauthorized, store))
      × ((id : ℕ) → get_command cfg key id store ≡ (unauthorized, store))
      × ((answer : TcuAnswer) → bench_reset cfg key answer store ≡ (unauthorized, store))
unfolding serve vehicle_status list_commands get_command bench_reset
wrong_key_rejected cfg key store h =
    let e = key_matches-false cfg key h in
    (
      λ id now request. rw e refl,
      λ now. rw e refl,
      λ limit. rw e refl,
      λ id. rw e refl,
      λ answer. rw e refl,
    )

-- The right key lets a request through.
pub serve-key :
    (cfg : Config) (id now : ℕ) (request : Request) (store : Store)
    → serve cfg (some cfg.api_key) id now request store ≡ route cfg id now request store
unfolding serve
serve-key cfg id now request store = ground (arith, eq_iff cfg.api_key cfg.api_key)

-- What `dispatch` has done before it asks the gateway: it forwards the command under its id, and
-- the table holds it as accepted; the other commands, the report and the shown set point `desired`
-- stay.
abbrev pub Forwards :
    ℕ → ℕ → CommandType → Params → Option Dyadic → Store → Response CommandBody × Store → Type 0
Forwards id now command params desired store (answer, store') =
    (answer ≡ ok (record { request_id = some id; command = command_text command; params = params }))
    × ((j : ℕ)
        → lookup j store'.commands ≡ (
            if j == id
            then some (accepted_record id command params now)
            else lookup j store.commands))
    × (store'.report ≡ store.report)
    × (store'.desired_climate_target ≡ desired)

dispatch_begin-Forwards :
    (id now : ℕ) (command : CommandType) (params : Params) (store : Store)
    → Forwards id now command params store.desired_climate_target store
        (dispatch_begin id now command params store)
unfolding dispatch_begin
dispatch_begin-Forwards id now command params store = (
  refl,
  λ j. lookup-insert j id (accepted_record id command params now) store.commands,
  refl,
  refl,
)

-- With the right key, a target state of charge in 50 to 100 is forwarded, and any other is
-- answered 422 and leaves the store as it is. The target that is left out is 80.
pub charging_start-validates :
    (cfg : Config) (id now : ℕ) (body : Option ℤ) (store : Store)
    → let result = serve cfg (some cfg.api_key) id now (Request.charging_start body) store in
      let target = Option.get_or body (pos 80) in
      ((pos 50 ≤ℤ target)
        × (target ≤ℤ pos 100)
        × Forwards id now CommandType.charging_start
            (record { target_temp_c = none; target_soc_percent = some target })
            store.desired_climate_target
            store
            result)
      ⊎ (¬ ((pos 50 ≤ℤ target) × (target ≤ℤ pos 100)) × (result ≡ (unprocessable, store)))
unfolding route
charging_start-validates cfg id now body store =
    let t : ℤ = Option.get_or body (pos 80) in
    rw (serve-key cfg id now (Request.charging_start body) store)
      (elim (Bool-cases (leb_ℤ (pos 50) t && leb_ℤ t (pos 100))) [
        | inl e ↦ inl (ground arith, ground arith, rw e (dispatch_begin-Forwards id now _ _ store))
        | inr e ↦ inr (λ h. ground arith, rw e refl)
      ])

-- The bounds that the current schema of `/climate/start` declares.
abbrev pub InRange : Dyadic → Type 0
InRange t = (pos (16 * 2 ^ t.shift) ≤ℤ t.num) × (t.num ≤ℤ pos (28 * 2 ^ t.shift))

-- With the right key, the current schema forwards a set point of 16 to 28 degrees, answers 422 to
-- any other and then leaves the store as it is; the legacy schema forwards every set point. A
-- forwarded set point is the one that the backend then keeps as asked for; the set point that is
-- left out is 22.
pub climate_start-validates :
    (cfg : Config) (id now : ℕ) (body : Option Dyadic) (store : Store)
    → let result = serve cfg (some cfg.api_key) id now (Request.climate_start body) store in
      let target = Option.get_or body (whole (pos 22)) in
      (((cfg.legacy_climate_schema ≡ true) ⊎ InRange target)
        × Forwards id now CommandType.climate_start
            (record { target_temp_c = some target; target_soc_percent = none })
            (some target)
            store
            result)
      ⊎ ((cfg.legacy_climate_schema ≡ false)
          × ¬ (InRange target)
          × (result ≡ (unprocessable, store)))
unfolding route
climate_start-validates cfg id now body store =
    let t : Dyadic = Option.get_or body (whole (pos 22)) in
    rw (serve-key cfg id now (Request.climate_start body) store)
      (elim (Bool-cases (cfg.legacy_climate_schema || at_least t 16 && at_most t 28)) [
        | inl e ↦ inl (ground arith, rw e (dispatch_begin-Forwards id now _ _ _))
        | inr e ↦ inr (ground arith, λ h. ground arith, rw e refl)
      ])
