-- ===== src/Admin/Slack/Answers.antt =====
-- What the answers of the Slack service say of its table.
use jobworkerp_conductor.Prelude.{ℕ, ◌≡◌, refl, ap, some, ok, err}
use jobworkerp_conductor.Proto.{SlackEventHandler, SlackEventHandlerData}
use jobworkerp_conductor.Admin.Rows.Slack.{SlackEventHandlerRow, slack_row, slack_to_proto}
use jobworkerp_conductor.Admin.Table.{Table, create, find}
use jobworkerp_conductor.Admin.Table.Kinds.{slack_kind}
use jobworkerp_conductor.Admin.Table.Laws.{create-find}
use jobworkerp_conductor.Admin.Service.{MemoryCache}
use jobworkerp_conductor.Admin.Slack.Validation.{Syntax, validate_handler_data}
use jobworkerp_conductor.Admin.Slack.Service.{
  SlackService, Answer, Ending, sent, unsent, rolled_back, transaction_failed, notification_failed,
  notify_or_fail, with_enabled, after_slack_create, create_slack_valid, create_slack_event_handler,
}

module _ (memory : MemoryCache SlackEventHandler) (syntax : Syntax) where
  -- The row of the data stands under the id.
  abbrev pub Committed : ℕ → SlackEventHandlerData → SlackService memory syntax → Type 0
  Committed id d s =
      (row : SlackEventHandlerRow) × (slack_row id d ≡ some row)
      × (find slack_kind id s.table ≡ some (slack_to_proto row))

  -- An answer after which the row is there, a success or the error of the notification; or, where the
  -- transaction is rolled back, one that leaves the service as it was.
  abbrev pub Recorded :
      ℕ
      → Ending
      → SlackEventHandlerData
      → SlackService memory syntax
      → Answer memory syntax ℕ
      → Type 0
  Recorded id sent d s (r, s') = (r ≡ ok id) × Committed id d s'
  Recorded id unsent d s (r, s') = (r ≡ err notification_failed) × Committed id d s'
  Recorded id (rolled_back cause) d s (r, s') = (r ≡ err (transaction_failed cause)) × (s' ≡ s)

  after_create-Recorded :
      (now : ℕ) (ending : Ending) (id : ℕ) (d : SlackEventHandlerData)
      (s : SlackService memory syntax) (i : ℕ) (t : Table slack_kind)
      → create slack_kind id d s.table ≡ (ok i, t)
      → Recorded id ending d s (after_slack_create memory syntax now ending d s (ok i, t))
  unfolding after_slack_create notify_or_fail
  after_create-Recorded now sent id d s i t h =
      let made = create-find slack_kind id i d s.table t h in
      (ap ok made.2, (made.0, made.1, made.3))
  after_create-Recorded now unsent id d s i t h =
      let made = create-find slack_kind id i d s.table t h in (refl, (made.0, made.1, made.3))
  after_create-Recorded now (rolled_back cause) id d s i t h = (refl, refl)

  -- Where the data with `enabled` set is valid and the INSERT succeeds: once the commit succeeds the
  -- row is in the table whatever becomes of the notification, and the answer is the id if the
  -- notification is sent and an error if it is not; if the lookup of the server or the commit fails,
  -- the answer is that error and nothing is changed.
  pub create_slack_event_handler-Recorded :
      (now : ℕ) (ending : Ending) (id i : ℕ) (d : SlackEventHandlerData)
      (s : SlackService memory syntax) (t : Table slack_kind)
      → validate_handler_data syntax (with_enabled d) ≡ ok tt
      → create slack_kind id (with_enabled d) s.table ≡ (ok i, t)
      → Recorded id ending
          (with_enabled d)
          s
          (create_slack_event_handler memory syntax now ending id d s)
  unfolding create_slack_event_handler create_slack_valid
  create_slack_event_handler-Recorded now ending id i d s t v h =
      rw (v, h) (after_create-Recorded now ending id (with_enabled d) s i t h)
