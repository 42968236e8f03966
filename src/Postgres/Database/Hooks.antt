-- ===== src/Postgres/Database/Hooks.antt =====
-- Webhooks: api/v1/webhooks.go and webhook_executor.go on the tables of webhooks and of their logs.
use mathlib.Core.List.{Perm}
use mathlib.Core.List.Perm
use dairycart.Prelude.{
  subst, sym, ℕ, String, ◌≡◌, refl, ap, ◌∙◌, Bool, false, Bool-cases, Option, List, [], ◌∷◌, map,
  filter, inl, inr,
}
use dairycart.Models.Basics.{Time}
use dairycart.Models.Webhooks.{Webhook, WebhookExecutionLog}
use dairycart.Storage.Answers.{Answer, Err, nil, is_failure}
use dairycart.Storage.Storer.{Storer}
use dairycart.Http.Messages.{Body}
use dairycart.Http.Handler.{World, Flow, fresh}
use dairycart.Api.Numbers.{path_id}
use dairycart.Api.Rules.{
  Ends, IsRefused, Ends-check_body, Ends-exec_db, Ends-check_internal, Ends-check_row,
  Ends-query_db, Ends-encode,
}
use dairycart.Api.Webhooks.{webhook_creation, webhook_deletion}
use dairycart.Api.Webhooks.Executor.{Network, call_webhook}
use dairycart.Api.Webhooks.Executor.Logs.{IsCalled, call_webhook-logs}
use dairycart.Postgres.Rows.{map_where}
use dairycart.Postgres.Statements.{Queries}
use dairycart.Postgres.Webhooks.{
  create_webhook, delete_webhook, archived_webhook, get_webhooks_by_event_type,
}
use dairycart.Postgres.ExecutionLogs.{create_webhook_execution_log}
use dairycart.Postgres.Database.{Database, postgres}
use dairycart.Postgres.Database.Writing.{writing-keeps, IsUseless, writing-IsUseless}

-- Archiving a row that a condition on the event type keeps or not.
filter-map_where :
    (p q : Webhook → Bool) (f : Webhook → Webhook)
    → ((x : Webhook) → p (f x) ≡ p x)
    → ((x : Webhook) → (f x).id ≡ x.id)
    → (xs : List Webhook)
    → map (λ h. h.id) (filter p (map_where q f xs)) ≡ map (λ h. h.id) (filter p xs)
filter-map_where p q f h k [] = refl
filter-map_where p q f h k (x ∷ xs) = elim (Bool-cases (q x)) [
  | inl e ↦ elim (Bool-cases (p x)) [
    | inl u ↦ rw (e, h x, u, k x) (ap (λ l. x.id ∷ l) (filter-map_where p q f h k xs))
    | inr u ↦ rw (e, h x, u) (filter-map_where p q f h k xs)
  ]
  | inr e ↦ elim (Bool-cases (p x)) [
    | inl u ↦ rw (e, u) (ap (λ l. x.id ∷ l) (filter-map_where p q f h k xs))
    | inr u ↦ rw (e, u) (filter-map_where p q f h k xs)
  ]
]

module _ {Q : Type 0} (sq : Queries Q) (violated : Database → Option String)
    (begin_err commit_err : Database → Err) where
  abbrev at : Time → Storer Database
  at = postgres sq violated begin_err commit_err

  create_webhook-IsUseless :
      (now : Time) (new : Webhook) (d : Database) → IsUseless d ((at now).create_webhook new d)
  unfolding postgres create_webhook
  create_webhook-IsUseless now new d = writing-IsUseless violated _ _ _ _ d refl refl

  create_log-IsUseless :
      (now : Time) (new : WebhookExecutionLog) (d : Database)
      → IsUseless d ((at now).create_webhook_execution_log new d)
  unfolding postgres create_webhook_execution_log
  create_log-IsUseless now new d = writing-IsUseless violated _ _ _ _ d refl refl

  nil-is_failure : {e : Err} → e ≡ nil → is_failure e ≡ false
  nil-is_failure p = rw p refl

  -- In PostgreSQL no webhook is ever created: the request is refused and nothing is written, since the
  -- statement returns a column that the table of webhooks does not have.
  pub webhook_creation-IsRefused :
      (now : Time) (is_zero : Webhook → Bool) (body : Answer Webhook) (d : Database)
      → IsRefused d (webhook_creation (at now) is_zero body (fresh d)).1
  unfolding webhook_creation
  webhook_creation-IsRefused now is_zero body d = run.ends
    where
      useless : IsUseless d ((at now).create_webhook body.value d)
      useless = create_webhook-IsUseless now body.value d

      run : Ends (λ r. IsRefused d r.1) (webhook_creation (at now) is_zero body) (fresh d)
      run =
          Ends-check_body _ _ _ (λ _. (refl, refl, refl, inl refl))
            λ _. Ends-exec_db _ _ _ (
              Ends-check_internal _ _ _ (λ _. (useless.1, refl, refl, inr (inr refl)))
                λ e. absurd (cc (useless.0, nil-is_failure e)))

  -- In PostgreSQL a call of a webhook leaves no log: the database stays as it is, whatever the call does,
  -- since the statement returns a column that the table of logs does not have.
  pub call_webhook-unlogged :
      (now : Time) (net : Network) (wh : Webhook) (object : Body) (d : Database)
      → call_webhook (at now) net wh object d ≡ d
  call_webhook-unlogged now net wh object d = by_result (call_webhook-logs (at now) net wh object d)
    where
      by_result :
          IsCalled (at now) net wh object d (call_webhook (at now) net wh object d)
          → call_webhook (at now) net wh object d ≡ d
      by_result (inl (_, e)) = e
      by_result (inr (inl (_, e))) = e
      by_result (inr (inr (code, log, _, _, _, _, e))) = e ∙ (create_log-IsUseless now log d).1

  -- The ids of the webhooks that are called for an event.
  abbrev pub called_ids : Time → String → Database → List ℕ
  called_ids now event_type d =
      map (λ h. h.id) ((at now).get_webhooks_by_event_type event_type d).value

  -- What PostgreSQL promises of the webhooks that a query without ORDER BY answers: they come in some order, each once.
  abbrev pub IsArranging : Type 0
  IsArranging = (now : Time) (xs : List Webhook) → Perm (sq.arrange now xs) xs

  arranged :
      IsArranging
      → (later : Time) (xs ys : List Webhook) → map (λ h. h.id) xs ≡ map (λ h. h.id) ys
      → Perm (map (λ h. h.id) (sq.arrange later xs)) (map (λ h. h.id) (sq.arrange later ys))
  arranged arranging later xs ys e = Perm.trans (Perm.map (λ h. h.id) (arranging later xs)) (
      subst (λ l. Perm l (map (λ h. h.id) (sq.arrange later ys))) (sym e)
        (Perm.symm (Perm.map (λ h. h.id) (arranging later ys))))

  deleted_called :
      IsArranging
      → (now later : Time) (id : ℕ) (event_type : String) (d : Database)
      → Perm
          (called_ids later event_type ((at now).delete_webhook id d).1)
          (called_ids later event_type d)
  unfolding postgres delete_webhook get_webhooks_by_event_type
  deleted_called arranging now later id event_type d =
      writing-keeps violated (λ d. d.webhooks) _ _ _ d
        (λ d'. Perm (called_ids later event_type d') (called_ids later event_type d)) Perm.rfl
        (arranged arranging later _ _
          (filter-map_where _ _ (archived_webhook now) (λ h. refl) (λ h. refl) d.webhooks.rows))

  -- Deleting a webhook takes none out of those that are called for an event: the ids that are read for it at any later time
  -- are the same, each as often, if the rows of a query come in some order, each once.
  pub webhook_deletion-called :
      IsArranging
      → (now later : Time) (id_str event_type : String) (d : Database)
      → let w = (webhook_deletion (at now) id_str (fresh d)).1 in
        Perm (called_ids later event_type w.db) (called_ids later event_type d)
  unfolding webhook_deletion
  webhook_deletion-called arranging now later id_str event_type d = run.ends
    where
      G : Flow (Unit {0}) × World Database → Type 0
      G (flow, w) = Perm (called_ids later event_type w.db) (called_ids later event_type d)

      kept :
          Perm
            (called_ids later event_type ((at now).delete_webhook (path_id id_str) d).1)
            (called_ids later event_type d)
      kept = deleted_called arranging now later (path_id id_str) event_type d

      run : Ends G (webhook_deletion (at now) id_str) (fresh d)
      run = Ends-query_db _ _ _ (
          Ends-check_row _ _ _ _ _ (λ _. Perm.rfl) (λ _. Perm.rfl)
            λ _.
              Ends-exec_db _ _ _ (Ends-check_internal _ _ _ (λ _. kept) λ _. Ends-encode _ _ kept))
