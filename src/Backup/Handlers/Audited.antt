-- ===== src/Backup/Handlers/Audited.antt =====
-- The audit events of the handlers of the restore workflow.
use go_lab.Prelude.{ℕ, ◌≡◌, refl, ℤ, Text, codes, Option, none, some}
use go_lab.Sql.{Call, Outcome, Result, ok, err}
use go_lab.Http.{Reply, success, error, Context, auth_user_id, id_of, reason_of}
use go_lab.Audit.{insert_admin_event}
use go_lab.Backup.{
  BackupError, status_text, rejected, fulfilled, cancelled, Db, approve, reject, cancel, fulfill,
  get,
}
use go_lab.Backup.Handlers.{
  World, event_of, post_approve, post_reject, post_fulfill, post_cancel, approved_reply,
  settled_reply, approve_reply, reject_reply, fulfill_reply, cancel_reply, guarded, status_meta,
  status_after,
}

-- The audit events behind a reply, where the event's INSERT ends as `o` says: one more for a
-- success, which names the user of the subject and the action, and the same for an error.
abbrev pub Audited : Outcome → Context → Text → World → Reply (ℕ × Text) × World → Type 0
Audited o ctx action w (error status code, w') = w'.events ≡ w.events
Audited o ctx action w (success status (id, text), w') =
    (uid : ℤ) × (reason : Text) × (meta : Option Text) × (auth_user_id ctx.auth_subject ≡ some uid)
    × (w'.events
        ≡ (insert_admin_event o w'.requests.connected (event_of ctx uid action id reason meta)
            w.events).1)

-- No answer to an error of the store is a success.
abbrev IsError : {A : Type 0} → Reply A → Type 0
IsError (success _ _) = ⊥
IsError (error _ _) = Unit

approve_reply-IsError : (e : BackupError) → IsError (approve_reply {A = ℕ × Text} e)
unfolding approve_reply
approve_reply-IsError BackupError.not_found = tt
approve_reply-IsError _ = tt

reject_reply-IsError : (e : BackupError) → IsError (reject_reply {A = ℕ × Text} e)
unfolding reject_reply
reject_reply-IsError BackupError.not_found = tt
reject_reply-IsError _ = tt

cancel_reply-IsError : (e : BackupError) → IsError (cancel_reply {A = ℕ × Text} e)
unfolding cancel_reply
cancel_reply-IsError BackupError.not_found = tt
cancel_reply-IsError _ = tt

fulfill_reply-IsError : (e : BackupError) → IsError (fulfill_reply {A = ℕ × Text} e)
unfolding fulfill_reply
fulfill_reply-IsError BackupError.invalid_state = tt
fulfill_reply-IsError _ = tt

refused :
    (o : Outcome) (ctx : Context) (action : Text) (w w' : World) (r : Reply (ℕ × Text))
    → IsError r
    → w'.events ≡ w.events
    → Audited o ctx action w (r, w')
refused o ctx action w w' (success _ _) h e = absurd h
refused o ctx action w w' (error _ _) h e = e

guarded-Audited :
    (o : Outcome) (ctx : Context) (action : Text) (w : World) (u : Option ℤ) (i : Option ℕ)
    (act : ℤ → ℕ → Reply (ℕ × Text) × World)
    → ((uid : ℤ) (id : ℕ) → u ≡ some uid → Audited o ctx action w (act uid id))
    → Audited o ctx action w (guarded u i w act)
unfolding guarded
guarded-Audited o ctx action w none i act h = refl
guarded-Audited o ctx action w (some uid) none act h = refl
guarded-Audited o ctx action w (some uid) (some id) act h = h uid id refl

module _ (c : Call) (ctx : Context) (w : World) where
  settled :
      (reply : BackupError → Reply (ℕ × Text)) (action status : Text) (uid : ℤ) (id : ℕ)
      (r : Result BackupError (Unit {0}) × Db)
      → ((e : BackupError) → IsError (reply e))
      → auth_user_id ctx.auth_subject ≡ some uid
      → Audited (c.driver 3) ctx action w (settled_reply reply action status c ctx uid id w r)
  unfolding settled_reply
  settled reply action status uid id (err e, db') no_success who =
      refused (c.driver 3) ctx action w (record w { requests = db' }) (reply e) (no_success e) refl
  settled reply action status uid id (ok _, db') no_success who =
      (uid, reason_of ctx, none, who, refl)

  -- The reject handler records each rejection under its user, and nothing else.
  pub post_reject-Audited :
      Audited (c.driver 3) ctx (codes "backup.restore.reject") w (post_reject c ctx w)
  unfolding post_reject
  post_reject-Audited =
      guarded-Audited _ ctx _ w (auth_user_id ctx.auth_subject) (id_of ctx) _ λ uid id who.
        settled reject_reply _ (status_text rejected) uid id
          (reject c id uid (reason_of ctx) w.requests) reject_reply-IsError who

  -- The fulfill handler records each fulfilment under its user, and nothing else.
  pub post_fulfill-Audited :
      Audited (c.driver 3) ctx (codes "backup.restore.fulfill") w (post_fulfill c ctx w)
  unfolding post_fulfill
  post_fulfill-Audited =
      guarded-Audited _ ctx _ w (auth_user_id ctx.auth_subject) (id_of ctx) _ λ uid id who.
        settled fulfill_reply _ (status_text fulfilled) uid id
          (fulfill c id uid (reason_of ctx) w.requests) fulfill_reply-IsError who

  -- The cancel handler records each cancellation under its user, and nothing else.
  pub post_cancel-Audited :
      Audited (c.driver 3) ctx (codes "backup.restore.cancel") w (post_cancel c ctx w)
  unfolding post_cancel
  post_cancel-Audited =
      guarded-Audited _ ctx _ w (auth_user_id ctx.auth_subject) (id_of ctx) _ λ uid id who.
        settled cancel_reply _ (status_text cancelled) uid id (cancel c id uid w.requests)
          cancel_reply-IsError who

  approved-Audited :
      (uid : ℤ) (id : ℕ) (r : Result BackupError (Unit {0}) × Db)
      → auth_user_id ctx.auth_subject ≡ some uid
      → Audited
          (c.driver 5)
          ctx
          (codes "backup.restore.approve")
          w
          (approved_reply c ctx uid id w r)
  unfolding approved_reply
  approved-Audited uid id (err e, db') who =
      refused (c.driver 5) ctx _ w (record w { requests = db' }) (approve_reply e)
        (approve_reply-IsError e) refl
  approved-Audited uid id (ok _, db') who =
      (uid, reason_of ctx, some (status_meta (status_after (get 4 c id db'))), who, refl)

  -- A success of the approve handler leaves what the insertion of one audit event leaves, which
  -- names the user of the subject and the action; an error leaves the audit events as they were.
  pub post_approve-Audited :
      Audited (c.driver 5) ctx (codes "backup.restore.approve") w (post_approve c ctx w)
  unfolding post_approve
  post_approve-Audited =
      guarded-Audited _ ctx _ w (auth_user_id ctx.auth_subject) (id_of ctx) _
        λ uid id who. approved-Audited uid id (approve c id uid w.requests) who
