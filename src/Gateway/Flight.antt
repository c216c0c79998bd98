-- ===== src/Gateway/Flight.antt =====
-- The gateway between any two awaits of its tasks: the command that `worker` has taken off the queue
-- may be on its way to the Body ECU while others arrive, the Body ECU is polled and heartbeats are
-- counted (`handle_command`, `worker`, `handle_reset`, `sync_once` and `heartbeat_loop` of
-- env/ecu-gateway/gateway.py).
use mathlib.Core.Option
use mathlib.Core.Path.{subst}
use mathlib.Core.List.{append_assoc, append-nil, map-append}
use vehicle_bench_candidate.Base.{
  ℕ, ◌≡◌, ◌∙◌, inl, inr, refl, ap, sym, Bool, Bool-cases, true, false, Option, none, some, List, [],
  ◌∷◌, ◌++◌, map, All, if◌then◌else◌,
}
use vehicle_bench_candidate.Proto.{BodyState, HeartbeatResponse}
use vehicle_bench_candidate.Gateway.Types.{
  TcuCal, CommandBody, CommandRecord, dropped, Gateway, Outcome, reply, rpc_error, Verdict, Reason,
  start as start_gateway,
}
use vehicle_bench_candidate.Gateway.Sync.{sync_answered, sync_failed, heartbeat_round}
use vehicle_bench_candidate.Gateway.Worker.{
  log_record, new_record, handle_command, Dispatch, drop, missing_method, start, dispatch_command,
  finish_command,
}
use vehicle_bench_candidate.Gateway.Refinement.{finals, finals-append}

-- `held` is the command between `queue.get` and the journal; `running` is false once the worker has
-- raised, which ends the program.
pub record Flight : Type 0 where
  pub running : Bool
  pub held : Option CommandRecord
  pub gateway : Gateway

-- What may happen next: a command arrives, the worker takes one off the queue, the handler of that
-- command returns or raises, some task polls the Body ECU, a reset empties the queue, or a heartbeat is
-- answered.
pub data Turn : Type 0 where
  arrive : ℕ → ℕ → CommandBody → Turn
  take empties : Turn
  handled : Option (Verdict × Reason) → ℕ → Turn
  polled : Outcome BodyState → ℕ → Turn
  beat : Outcome HeartbeatResponse → ℕ → Turn

-- `worker` on the command that it took, up to its first await.
abbrev begun : CommandRecord → Dispatch → Flight → Flight
begun r drop f = record f { gateway = log_record (record r { state = dropped }) f.gateway }
begun r missing_method f = record f { running = false; held = some r }
begun r (start task) f = record f { held = some r }

module _ (cal : TcuCal) where
  abbrev taken : Option CommandRecord → List CommandRecord → Flight → Flight
  taken (some r) q f = f
  taken none [] f = f
  taken none (r ∷ rest) f =
      begun r (dispatch_command cal r) (record f { gateway = record (f.gateway) { queue = rest } })

  -- `worker` from the end of the handler to the journal.
  abbrev ended : Option CommandRecord → Option (Verdict × Reason) → ℕ → Flight → Flight
  ended none result elapsed f = f
  ended (some r) none elapsed f = record f { running = false }
  ended (some r) (some (verdict, reason)) elapsed f = record f {
    held = none;
    gateway = finish_command verdict reason elapsed r f.gateway;
  }

  abbrev seen : Outcome BodyState → ℕ → Gateway → Gateway
  seen (reply state) now g = sync_answered now state g
  seen (rpc_error code) now g = sync_failed g

  abbrev act : Turn → Flight → Flight
  act (arrive fresh now body) f = record f { gateway = (handle_command fresh now body f.gateway).1 }
  act take f = taken f.held f.gateway.queue f
  act empties f = record f { gateway = record (f.gateway) { queue = [] } }
  act (handled result elapsed) f = ended f.held result elapsed f
  act (polled outcome now) f = record f { gateway = seen outcome now f.gateway }
  act (beat outcome latency) f = record f {
    gateway = (heartbeat_round cal outcome latency f.gateway).1;
  }

  unfoldable pub turns : List Turn → Flight → Flight
  turns [] f = f
  turns (t ∷ ts) f = turns ts (if f.running then act t f else f)

-- The id of the command that arrives at a gateway that runs.
abbrev arrived : Turn → List ℕ
arrived (arrive fresh now body) = Option.get_or body.request_id fresh ∷ []
arrived _ = []

-- The ids that arrive while the gateway runs.
unfoldable pub arrivals : TcuCal → List Turn → Flight → List ℕ
unfolding turns
arrivals cal [] f = []
arrivals cal (t ∷ ts) f =
    if f.running then arrived t ++ arrivals cal ts (act cal t f) else arrivals cal ts f

abbrev pub IsNoReset : Turn → Type 0
IsNoReset empties = ⊥
IsNoReset _ = Unit

abbrev pub in_hand : Option CommandRecord → List ℕ
in_hand none = []
in_hand (some r) = r.request_id ∷ []

-- The ids that the worker journalled as finished or dropped, the one in its hand, and those that wait.
abbrev pub known : Flight → List ℕ
known f =
    finals f.gateway.journal
    ++ (in_hand f.held ++ map (λ (r : CommandRecord). r.request_id) f.gateway.queue)

module _ (cal : TcuCal) where
  begun-known :
      (r : CommandRecord) (d : Dispatch) (f : Flight)
      → f.held ≡ none
      → known (begun r d f)
        ≡ finals f.gateway.journal
          ++ (r.request_id ∷ map (λ (x : CommandRecord). x.request_id) f.gateway.queue)
  begun-known r drop f free =
      ap (λ l. l ++ (in_hand f.held ++ map (λ (x : CommandRecord). x.request_id) f.gateway.queue))
        (finals-append f.gateway.journal _)
      ∙ append_assoc (finals f.gateway.journal) (r.request_id ∷ []) _
      ∙ ap
          (λ h.
            finals f.gateway.journal
            ++ (r.request_id
                ∷ (in_hand h ++ map (λ (x : CommandRecord). x.request_id) f.gateway.queue)))
          free
  begun-known r missing_method f free = refl
  begun-known r (start task) f free = refl

  taken-known :
      (held : Option CommandRecord) (q : List CommandRecord) (f : Flight)
      → f.held ≡ held
      → f.gateway.queue ≡ q
      → known (taken cal held q f) ≡ known f
  taken-known (some r) q f e e' = refl
  taken-known none [] f e e' = refl
  taken-known none (r ∷ rest) f e e' =
      begun-known r (dispatch_command cal r) _ e
      ∙ sym (
          ap
            (λ h.
              finals f.gateway.journal
              ++ (in_hand h ++ map (λ (x : CommandRecord). x.request_id) f.gateway.queue))
            e
          ∙ ap (λ q. finals f.gateway.journal ++ map (λ (x : CommandRecord). x.request_id) q) e')

  ended-known :
      (held : Option CommandRecord) (result : Option (Verdict × Reason)) (elapsed : ℕ) (f : Flight)
      → f.held ≡ held
      → known (ended cal held result elapsed f) ≡ known f
  ended-known none result elapsed f e = refl
  ended-known (some r) none elapsed f e = refl
  ended-known (some r) (some (verdict, reason)) elapsed f e =
      let waiting = map (λ (x : CommandRecord). x.request_id) f.gateway.queue in
      ap (λ l. l ++ waiting) (finals-append f.gateway.journal _)
      ∙ append_assoc (finals f.gateway.journal) (r.request_id ∷ []) waiting
      ∙ ap (λ h. finals f.gateway.journal ++ (in_hand h ++ waiting)) (sym e)

  act-known : (t : Turn) (f : Flight) → IsNoReset t → known (act cal t f) ≡ known f ++ arrived t
  unfolding handle_command sync_answered sync_failed heartbeat_round
  act-known (arrive fresh now body) f keeps =
      let id = Option.get_or body.request_id fresh in
      let waiting = map (λ (x : CommandRecord). x.request_id) f.gateway.queue in
      ap
        (λ l.
          l
          ++ (in_hand f.held
              ++ map (λ (x : CommandRecord). x.request_id)
                  (f.gateway.queue ++ new_record fresh now body ∷ [])))
        (finals-append f.gateway.journal _ ∙ append-nil (finals f.gateway.journal))
      ∙ ap (λ l. finals f.gateway.journal ++ (in_hand f.held ++ l))
          (map-append (λ (x : CommandRecord). x.request_id) f.gateway.queue _)
      ∙ ap (λ l. finals f.gateway.journal ++ l) (sym (append_assoc (in_hand f.held) waiting _))
      ∙ sym (append_assoc (finals f.gateway.journal) (in_hand f.held ++ waiting) (id ∷ []))
  act-known take f keeps =
      taken-known f.held f.gateway.queue f refl refl ∙ sym (append-nil (known f))
  act-known empties f keeps = absurd keeps
  act-known (handled result elapsed) f keeps =
      ended-known f.held result elapsed f refl ∙ sym (append-nil (known f))
  act-known (polled (reply state) now) f keeps = sym (append-nil (known f))
  act-known (polled (rpc_error code) now) f keeps = sym (append-nil (known f))
  act-known (beat (reply response) latency) f keeps = sym (append-nil (known f))
  act-known (beat (rpc_error code) latency) f keeps = sym (append-nil (known f))

  turns-known :
      (ts : List Turn) (f : Flight)
      → All IsNoReset ts
      → known (turns cal ts f) ≡ known f ++ arrivals cal ts f
  unfolding turns arrivals
  turns-known [] f keeps = sym (append-nil (known f))
  turns-known (t ∷ ts) f keeps = elim (Bool-cases f.running) [
    | inl up ↦
        subst
          (λ b.
            known (turns cal ts (if b then act cal t f else f))
            ≡ known f
              ++ (if b then arrived t ++ arrivals cal ts (act cal t f) else arrivals cal ts f))
          (sym up)
          (turns-known ts (act cal t f) keeps.1
            ∙ ap (λ l. l ++ arrivals cal ts (act cal t f)) (act-known t f keeps.0)
            ∙ append_assoc (known f) (arrived t) (arrivals cal ts (act cal t f)))
    | inr down ↦
        subst
          (λ b.
            known (turns cal ts (if b then act cal t f else f))
            ≡ known f
              ++ (if b then arrived t ++ arrivals cal ts (act cal t f) else arrivals cal ts f))
          (sym down) (turns-known ts f keeps.1)
  ]

abbrev pub from_start : Flight
from_start = record { running = true; held = none; gateway = start_gateway [] }

-- From a start of the gateway on with an empty journal, if no reset empties the queue: between any two
-- awaits of its tasks, whatever commands arrive while another one is being handled, and also when the
-- worker has raised, the ids that it has journalled as finished or dropped, followed by the command in
-- its hand, if there is one, and by those that wait, are the ids that arrived while the gateway ran,
-- each as often as it came and in the order of arrival.
pub commands_in_order :
    (cal : TcuCal) (ts : List Turn)
    → All IsNoReset ts
    → let f = turns cal ts from_start in
      finals f.gateway.journal
        ++ (in_hand f.held ++ map (λ (r : CommandRecord). r.request_id) f.gateway.queue)
      ≡ arrivals cal ts from_start
unfolding start_gateway
commands_in_order cal ts keeps = turns-known cal ts from_start keeps
