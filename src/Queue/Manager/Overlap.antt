-- ===== src/Queue/Manager/Overlap.antt =====
-- queue-manager.service.ts: two requests for a gateway that both find its queue missing, since neither
-- has come back from awaiting it.
use queue_system.Prelude.{
  arith, ℕ, suc, ◌<◌, ◌≡◌, ◌≢◌, ◌∙◌, refl, ap, sym, false, String, Option, none, some, length, ◌==◌,
  str_eq, if◌then◌else◌, Bool-cases, inl, inr,
}
use queue_system.Prelude.Maps.{set, set_self}
use queue_system.Queue.Name.{queue_name_for}
use queue_system.Payments.Exec.{ok, continue-ok}
use queue_system.Queue.Manager.{
  Bull, QueueConfig, GatewayRuntime, QueueManager, call, scale_workers, set_runtime, provision,
}
use queue_system.Queue.Manager.Scale.{Answers, IsPossible, floor, scale_workers-length}
use queue_system.Queue.Manager.Frame.{Frame, scale_workers-Frame}

abbrev ref_of : Option GatewayRuntime → ℕ
ref_of none = 0
ref_of (some r) = r.ref

-- The objects of the map are older than the next one.
abbrev pub Old : {B : Bull} → QueueManager B → Type 0
Old q = (k : String) (r : GatewayRuntime) → q.runtimes k ≡ some r → r.ref < q.next_ref

module _ {B : Bull} (A : Answers B)
    (opens : (name : String) (s : B.State) → (B.open_queue name s).0 ≡ ok tt) (config : QueueConfig)
    (possible : IsPossible config.worker_pool_size) (spare : ℕ) (id : String) where
  module _ (q : QueueManager B) where
    abbrev made : GatewayRuntime
    made = record {
      gateway_id = id;
      queue_name = queue_name_for config.to_lower_case id;
      ref = q.next_ref;
    }

    abbrev opened : QueueManager B
    opened = record q { bull = (B.open_queue (queue_name_for config.to_lower_case id) q.bull).1 }

    abbrev placed : QueueManager B
    placed = (set_runtime id (queue_name_for config.to_lower_case id) opened).1

    abbrev scaled : QueueManager B
    scaled = (scale_workers spare made config.worker_pool_size placed).1

    provision_lem : provision config spare id q ≡ (ok made, scaled)
    unfolding provision
    provision_lem =
        rw (opens (queue_name_for config.to_lower_case id) q.bull, call)
          (continue-ok _ (scale_workers spare made config.worker_pool_size placed)
            (scale_workers-length A made config.worker_pool_size possible spare placed).0)

    frame : Frame q.next_ref placed scaled
    frame = scale_workers-Frame made config.worker_pool_size spare placed

    scaled-runtimes : scaled.runtimes ≡ set id made q.runtimes
    unfolding set_runtime
    scaled-runtimes = frame.runtimes_same

    scaled-next_ref : scaled.next_ref ≡ suc q.next_ref
    unfolding set_runtime
    scaled-next_ref = frame.next_ref_same

    scaled-length : length (scaled.workers q.next_ref) ≡ floor config.worker_pool_size
    scaled-length = (scale_workers-length A made config.worker_pool_size possible spare placed).1

    scaled-others : (k : ℕ) → (k == q.next_ref) ≡ false → scaled.workers k ≡ q.workers k
    unfolding set_runtime
    scaled-others k other = frame.others k other ∙ rw other refl

    scaled-held :
        (k : String) (r : GatewayRuntime)
        → scaled.runtimes k ≡ some r
        → (if str_eq id k then some made else q.runtimes k) ≡ some r
    scaled-held k r held = ap (λ m. m k) (sym scaled-runtimes) ∙ held

  -- The second of two overlapping requests, by whether it is the gateway's id that is looked up.
  not_held :
      (q : QueueManager B)
      → Old q
      → (k : String) (r : GatewayRuntime) → (scaled (scaled q)).runtimes k ≡ some r
      → r.ref ≢ q.next_ref
  not_held q old k r held same = elim (Bool-cases (str_eq id k)) [
    | inl its ↦
        let e : some (made (scaled q)) ≡ some r = rw its at (scaled-held (scaled q) k r held) in
        let refs : (scaled q).next_ref ≡ r.ref = ap (λ o. ref_of o) e in
        absurd (omega (arith, refs, scaled-next_ref q))
    | inr other ↦
        let e : (scaled q).runtimes k ≡ some r = rw other at (scaled-held (scaled q) k r held) in
        let e' : q.runtimes k ≡ some r = rw other at (scaled-held q k r e) in
        absurd (omega (arith, old k r e'))
  ]

  -- With BullMQ answering and a pool size that is not below 0, if two requests for a gateway both
  -- found it missing, then both return a runtime with a full pool of workers; the map holds the
  -- second, and under no id the first, so that the workers of the first are out of reach.
  pub provision-overlaps :
      (q : QueueManager B)
      → Old q
      → let (first, q1) = provision config spare id q in
        let (second, q2) = provision config spare id q1 in
        (a : GatewayRuntime) × (b : GatewayRuntime) × (first ≡ ok a)
        × (second ≡ ok b)
        × (length (q2.workers a.ref) ≡ floor config.worker_pool_size)
        × (length (q2.workers b.ref) ≡ floor config.worker_pool_size)
        × (q2.runtimes id ≡ some b)
        × ((k : String) (r : GatewayRuntime) → q2.runtimes k ≡ some r → r.ref ≢ a.ref)
  provision-overlaps q old =
      let q1 : QueueManager B = scaled q in
      let kept : (scaled q1).workers q.next_ref ≡ q1.workers q.next_ref =
        scaled-others q1 q.next_ref (ground (arith, scaled-next_ref q)) in
      rw (provision_lem q) (
        rw (provision_lem q1) (
          made q,
          made q1,
          refl,
          refl,
          ap length kept ∙ scaled-length q,
          scaled-length q1,
          ap (λ m. m id) (scaled-runtimes q1) ∙ set_self id (made q1) q1.runtimes,
          not_held q old,
        ))
