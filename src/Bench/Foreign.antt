-- ===== src/Bench/Foreign.antt =====
-- What a request under another id leaves alone (`dispatch` of env/backend/app/main.py).
use Prim.Native.String.{String}
use mathlib.Core.Option
use vehicle_bench_candidate.Base.{if_keeps, ℕ, ◌≡◌, ◌≢◌, refl, ap, Option, some, arith}
use vehicle_bench_candidate.Base.Dict.{lookup-insert}
use vehicle_bench_candidate.Gateway.Types.{Params, CommandBody}
use vehicle_bench_candidate.Backend.Store.{Store, CommandType, Response, ok}
use vehicle_bench_candidate.Backend.Commands.{
  Config, Request, TcuAnswer, accepted_record, key_matches, route, dispatch_begin, serve,
  dispatch_end, http_error,
}
use vehicle_bench_candidate.Backend.Lifecycle.{dispatch_end_lem, status_at}
use vehicle_bench_candidate.Bench.{Link, lost, answered_in_time, answer_lost, Bench, forward}

-- What is forwarded carries the id `j`.
abbrev Names : ℕ → Response CommandBody → Type 0
Names j (ok body) = body.request_id ≡ some j
Names j _ = Unit

-- A request under the id `j` leaves the status of the command `id`.
abbrev pub Leaves : ℕ → ℕ → Store → Response CommandBody × Store → Type 0
Leaves id j store (answer, store') = (status_at id store' ≡ status_at id store) × Names j answer

module _ (id j now : ℕ) (ne : j ≢ id) where
  dispatch_begin-Leaves :
      (command : CommandType) (params : Params) (store : Store)
      → Leaves id j store (dispatch_begin j now command params store)
  unfolding dispatch_begin
  dispatch_begin-Leaves command params store = (
    ap (Option.map (λ y. y.status))
        (ground (arith, lookup-insert id j (accepted_record j command params now) store.commands)),
    refl,
  )

  route-Leaves :
      (cfg : Config) (r : Request) (store : Store) → Leaves id j store (route cfg j now r store)
  unfolding route
  route-Leaves cfg Request.lock store = dispatch_begin-Leaves _ _ store
  route-Leaves cfg Request.unlock store = dispatch_begin-Leaves _ _ store
  route-Leaves cfg Request.climate_stop store = dispatch_begin-Leaves _ _ _
  route-Leaves cfg Request.charging_stop store = dispatch_begin-Leaves _ _ store
  route-Leaves cfg (Request.climate_start body) store =
      if_keeps (Leaves id j store) _ _ _ (dispatch_begin-Leaves _ _ _) (refl, tt)
  route-Leaves cfg (Request.charging_start body) store =
      if_keeps (Leaves id j store) _ _ _ (dispatch_begin-Leaves _ _ store) (refl, tt)

  pub serve-Leaves :
      (cfg : Config) (key : Option String) (r : Request) (store : Store)
      → Leaves id j store (serve cfg key j now r store)
  unfolding serve
  serve-Leaves cfg key r store =
      if_keeps (Leaves id j store) (key_matches cfg key) _ _ (route-Leaves cfg r store) (refl, tt)

  dispatch_end-status :
      (answer : TcuAnswer) (store : Store)
      → status_at id (dispatch_end j now answer store).1 ≡ status_at id store
  dispatch_end-status answer store =
      ap (Option.map (λ y. y.status)) (ground (arith, (dispatch_end_lem j now answer store id).0))

pub forward-status :
    (id : ℕ) (link : Link) (j : ℕ) (body : CommandBody) (b : Bench)
    → j ≢ id
    → status_at id (forward link j body b).outside.backend ≡ status_at id b.outside.backend
forward-status id lost j body b ne =
    dispatch_end-status id j b.outside.clock ne http_error b.outside.backend
forward-status id answered_in_time j body b ne =
    dispatch_end-status id j b.outside.clock ne _ b.outside.backend
forward-status id answer_lost j body b ne =
    dispatch_end-status id j b.outside.clock ne http_error b.outside.backend
