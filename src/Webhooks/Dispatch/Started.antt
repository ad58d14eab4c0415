-- ===== src/Webhooks/Dispatch/Started.antt =====
-- Which deliveries a dispatch starts.
use sai_aurosy.Prelude.{
  ◌≡◌, sym, ap, subst, ◌∙◌, ◌↔◌, inl, inr, true, ◌&&◌, Option, some, map, Memᴰ, String, arith,
  contains, Option-cases,
}
use sai_aurosy.Selected.{of-select, into-select, of-map, into-map}
use sai_aurosy.Hal.{Time}
use sai_aurosy.Hal.Capability.{contains-of-Memᴰ, Memᴰ-of-contains}
use sai_aurosy.Dict
use sai_aurosy.Webhooks.Store.{Webhook, Webhooks, list_webhooks, list_by_event}
use sai_aurosy.Webhooks.Dispatch.{
  Payload, Dispatcher, Job, job_of, start_jobs, dispatch_from, dispatch,
}

-- An enabled webhook that subscribed to the event.
pub record Subscribed (event : String) (w : Webhook) : Type 0 where
  pub is_enabled : w.enabled ≡ true
  pub listens : Memᴰ event w.events

list_by_event_iff :
    (event : String) (s : Webhooks) (w : Webhook)
    → Memᴰ w (list_by_event event s) ↔ (Memᴰ w (list_webhooks s) × Subscribed event w)
unfolding list_by_event list_webhooks
list_by_event_iff event s w = (
  λ h.
      let (m, p) = of-select (λ v. v.enabled && contains v.events event) w (Dict.values s) h in
      (
        m,
        record {
          is_enabled = ground (arith, p);
          listens = Memᴰ-of-contains w.events event (ground (arith, p));
        },
      ),
  λ (m, v).
      into-select (λ v. v.enabled && contains v.events event) w (Dict.values s) m
        (ground (arith, v.is_enabled, contains-of-Memᴰ w.events event v.listens)),
)

module _ {Data : Type 0} (marshal : Payload Data → Option String) where
  -- The reasons for which a job is started.
  pub record Starts (now : Time) (event : String) (data_of : Data) (d : Dispatcher) (j : Job)
      : Type 0 where
    pub webhooks : Webhooks
    pub has_store : d.store ≡ some webhooks
    pub stored : Memᴰ j.webhook (list_webhooks webhooks)
    pub subscribed : Subscribed event j.webhook
    pub body : String
    pub marshalled :
        marshal (record { event = event; timestamp = now; data_of = data_of }) ≡ some body
    pub made : j ≡ job_of d.has_dead_letter event body j.webhook

  module _ (now : Time) (event : String) (data_of : Data) (d : Dispatcher) (j : Job) where
    dispatch-Starts : Memᴰ j (dispatch marshal now event data_of d) → Starts now event data_of d j
    unfolding dispatch dispatch_from start_jobs
    dispatch-Starts h = elim (Option-cases d.store) [
      | inl e ↦ elim (simp e at h) [ ]
      | inr (s, e) ↦
          elim (Option-cases
            (marshal (record { event = event; timestamp = now; data_of = data_of }))) [
              | inl g ↦ elim (simp (e, g) at h) [ ]
              | inr (body, g) ↦
                  let (w, m, made) =
                    of-map (job_of d.has_dead_letter event body) j (list_by_event event s)
                      (simp (e, g) at h) in
                  let same : j.webhook ≡ w = ap (λ (k : Job). k.webhook) made in
                  let (stored, subscribed) =
                    (list_by_event_iff event s j.webhook).0
                      (subst (λ v. Memᴰ v (list_by_event event s)) (sym same) m) in
                  record {
                    webhooks = s;
                    has_store = e;
                    stored = stored;
                    subscribed = subscribed;
                    body = body;
                    marshalled = g;
                    made = made ∙ ap (job_of d.has_dead_letter event body) (sym same);
                  }
            ]
    ]

    Starts-dispatch : Starts now event data_of d j → Memᴰ j (dispatch marshal now event data_of d)
    unfolding dispatch dispatch_from start_jobs
    Starts-dispatch v =
        let m =
          into-map (job_of d.has_dead_letter event v.body) j.webhook
            (list_by_event event v.webhooks)
            ((list_by_event_iff event v.webhooks j.webhook).1 (v.stored, v.subscribed)) in
        simp (v.has_store, v.marshalled)
          (subst
            (λ k.
              Memᴰ k (map (job_of d.has_dead_letter event v.body) (list_by_event event v.webhooks)))
            (sym v.made) m)

    -- Dispatch starts a delivery exactly when the dispatcher has a store, the payload can be written as
    -- JSON, and the delivery is of that JSON and event, with the dispatcher's dead-letter store, to a
    -- stored webhook that is enabled and subscribed to the event.
    pub dispatch_iff : Memᴰ j (dispatch marshal now event data_of d) ↔ Starts now event data_of d j
    dispatch_iff = (dispatch-Starts, Starts-dispatch)
