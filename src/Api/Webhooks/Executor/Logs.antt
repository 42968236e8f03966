-- ===== src/Api/Webhooks/Executor/Logs.antt =====
-- What a call of a webhook leaves in the database.
use dairycart.Prelude.{
  ℕ, ◌≤◌, ◌<◌, ◌≡◌, ◌⊎◌, inl, inr, refl, Bool, true, false, leb, ◌&&◌, leb→le, not_leb,
  if◌then◌else◌,
}
use dairycart.Models.Webhooks.{Webhook, WebhookExecutionLog}
use dairycart.Storage.Answers.{is_err}
use dairycart.Storage.Storer.{Storer}
use dairycart.Http.Messages.{Body}
use dairycart.Api.Webhooks.Executor.{
  Network, Posted, answered, failed_post, execution_log, marshal, log_post, call_webhook,
}

-- Whether a status counts as a success.
abbrev pub IsGraded : ℕ → Bool → Type 0
IsGraded code succeeded =
    (succeeded ≡ true) × (200 ≤ code) × (code ≤ 300)
    ⊎ (succeeded ≡ false) × ((code < 200) ⊎ (300 < code))

grade_lem : (wh : Webhook) (code : ℕ) → IsGraded code (execution_log wh code).succeeded
unfolding execution_log
grade_lem wh code = by_tests (leb 200 code) (leb code 300) refl refl
  where
    by_tests :
        (a b : Bool)
        → leb 200 code ≡ a
        → leb code 300 ≡ b
        → IsGraded code (leb 200 code && leb code 300)
    by_tests true true p q = rw (p, q) (inl (refl, leb→le _ _ p, leb→le _ _ q))
    by_tests true false p q = rw (p, q) (inr (refl, inr (not_leb _ _ q)))
    by_tests false b p q = rw p (inr (refl, inl (not_leb _ _ p)))

module _ {D : Type 0} (s : Storer D) (net : Network) where
  abbrev pub IsCalled : Webhook → Body → D → D → Type 0
  IsCalled wh object d d' =
      (is_err (marshal s net wh object).err ≡ true) × (d' ≡ d)
      ⊎ (net.post wh.url wh.content_type (marshal s net wh object).value ≡ failed_post) × (d' ≡ d)
      ⊎ (code : ℕ) × (log : WebhookExecutionLog) × (net.post wh.url wh.content_type
            (marshal s net wh object).value
          ≡ answered code)
        × (log.webhook_id ≡ wh.id)
        × (log.status_code ≡ code)
        × IsGraded code log.succeeded
        × (d' ≡ (s.create_webhook_execution_log log d).1)

  -- A call of a webhook writes nothing if the object has no encoding or the request gets no response;
  -- else it writes one log, of that webhook and the status of the response, which counts as a success
  -- exactly from 200 up to 300.
  pub call_webhook-logs :
      (wh : Webhook) (object : Body) (d : D) → IsCalled wh object d (call_webhook s net wh object d)
  unfolding call_webhook log_post execution_log
  call_webhook-logs wh object d =
      by_result (is_err (marshal s net wh object).err)
        (net.post wh.url wh.content_type (marshal s net wh object).value) refl refl
    where
      by_result :
          (b : Bool) (p : Posted)
          → is_err (marshal s net wh object).err ≡ b
          → net.post wh.url wh.content_type (marshal s net wh object).value ≡ p
          → IsCalled wh object d (
              if is_err (marshal s net wh object).err
              then d
              else log_post s net wh
                  (net.post wh.url wh.content_type (marshal s net wh object).value)
                  d)
      by_result true p e q = rw e (inl (refl, refl))
      by_result false failed_post e q = rw (e, q) (inr (inl (refl, refl)))
      by_result false (answered code) e q =
          rw (e, q)
            (inr (inr (code, execution_log wh code, refl, refl, refl, grade_lem wh code, refl)))
