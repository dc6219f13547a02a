-- ===== src/Ticket/Outcomes.antt =====
-- internal/service/ticket.go, `Reply`: what a reply has done.
use levis.Base.{
  if◌then◌else◌, ℕ, ◌+◌, ◌==◌, ◌≡◌, refl, Bool, false, some, List, [], ◌∷◌, ◌++◌, ltb, length, ◌≤◌,
  arith,
}
use levis.Base.Time.{Time}
use levis.Store.{
  TicketStatus, User, is_admin, Ticket, TicketReply, TicketAttachment, Db, first, update, Result,
  ok, err, World, when, execute_sql, pure, ◌>>=◌,
}
use levis.Store.Steps.{
  after_statement, after_raise_if, after_select, after_lift, after_when, last_transaction,
}
use levis.Ticket.{validate_body}
use levis.Ticket.Replies.{
  Upload, is_visible, is_closed, lock_ticket, save_attachments, insert_reply, create_reply,
  reply_body, reply,
}

-- The tables after a reply to the ticket `ticket_id`.
abbrev pub answered_db : Db → ℕ → User → Time → TicketReply → List TicketAttachment → Db
answered_db d ticket_id user now r attachments = record d {
  tickets =
      update (λ t. t.id == ticket_id)
        (λ t. record t {
          status =
              if is_admin user.role then TicketStatus.ticket_answered else TicketStatus.ticket_open;
          last_reply_at = some now;
        })
        d.tickets;
  ticket_replies = r ∷ d.ticket_replies;
  ticket_attachments = attachments ++ d.ticket_attachments;
  next_id = d.next_id + 1;
}

module _ (trim : List ℕ → List ℕ) where
  -- The reply was written, with the attachments that its files make.
  pub record Written (d : Db) (ticket_id : ℕ) (user : User) (files : List Upload) (now : Time)
      (r : TicketReply) (after : Db) : Type 0 where
    pub attachments : List TicketAttachment
    pub saved : save_attachments trim ticket_id r.id files ≡ ok attachments
    pub at : r.ticket_id ≡ ticket_id
    pub by : r.user_id ≡ user.id
    pub marked : r.is_staff ≡ is_admin user.role
    pub tables : after ≡ answered_db d ticket_id user now r attachments

  abbrev pub Wrote : Db → ℕ → User → List Upload → Time → Result TicketReply × World → Type 0
  Wrote d ticket_id user files now (err e, w) = Unit
  Wrote d ticket_id user files now (ok r, w) = Written d ticket_id user files now r w.db

  -- The row that the reply gets.
  abbrev row_of : Db → ℕ → User → List ℕ → TicketReply
  row_of d ticket_id user body = record {
    id = d.next_id;
    ticket_id = ticket_id;
    user_id = user.id;
    is_staff = is_admin user.role;
    body = body;
  }

  abbrev inserted : Db → TicketReply → Db
  inserted d r = record d { ticket_replies = r ∷ d.ticket_replies; next_id = d.next_id + 1 }

  attached-Wrote :
      (d : Db) (ticket_id : ℕ) (user : User) (body : List ℕ) (files : List Upload) (now : Time)
      (attachments : List TicketAttachment)
      → save_attachments trim ticket_id d.next_id files ≡ ok attachments
      → (w : World) → w.db ≡ inserted d (row_of d ticket_id user body)
      → Wrote d ticket_id user files now (
          (when (ltb 0 (length attachments)) (
                execute_sql
                  (λ d. record d { ticket_attachments = attachments ++ d.ticket_attachments }))
              >>= λ _.
                  (execute_sql (λ d. record d {
                    tickets =
                        update
                          (λ t. t.id == ticket_id)
                          (λ t. record t {
                            status =
                                if is_admin user.role
                                then TicketStatus.ticket_answered
                                else TicketStatus.ticket_open;
                            last_reply_at = some now;
                          })
                          d.tickets;
                  })
                    >>= λ _. pure (row_of d ticket_id user body)))
            w)
  unfolding pure
  attached-Wrote d ticket_id user body files now [] saved w same =
      let Q = Wrote d ticket_id user files now in
      after_when Q (ltb 0 (length {A = TicketAttachment} [])) _ _ w (λ h. absurd (ground arith))
        (λ _. after_statement Q _ _ w tt (record {
          attachments = [];
          saved = saved;
          at = refl;
          by = refl;
          marked = refl;
          tables = rw same refl;
        }))
  attached-Wrote d ticket_id user body files now (a ∷ rest) saved w same =
      let Q = Wrote d ticket_id user files now in
      after_when Q (ltb 0 (length (a ∷ rest))) _ _ w
        (λ _. after_statement Q _ _ w tt (
          after_statement Q _ _ _ tt (record {
            attachments = a ∷ rest;
            saved = saved;
            at = refl;
            by = refl;
            marked = refl;
            tables = rw same refl;
          })))
        (λ h. absurd (ground arith))

  create_reply-Wrote :
      (ticket_id : ℕ) (user : User) (body : List ℕ) (files : List Upload) (now : Time) (w : World)
      → Wrote w.db ticket_id user files now (create_reply trim ticket_id user body files now w)
  unfolding create_reply insert_reply
  create_reply-Wrote ticket_id user body files now w =
      let Q = Wrote w.db ticket_id user files now in
      after_statement Q _ _ w tt (
        after_lift Q (save_attachments trim ticket_id w.db.next_id files) _ _ (λ e _. tt)
          (λ attachments saved.
            attached-Wrote w.db ticket_id user body files now attachments saved _ refl))

  abbrev pub RepliedTo :
      Db → ℕ → User → Bool → List Upload → Time → Result TicketReply × World → Type 0
  RepliedTo d id user is_staff files now (err e, w) = Unit
  RepliedTo d id user is_staff files now (ok r, w) =
      (t : Ticket) × (first (is_visible id user.id is_staff) d.tickets ≡ some t)
      × (is_closed t.status ≡ false)
      × (length files ≤ 5)
      × Written d t.id user files now r w.db

  -- An error leaves the tables as they were.
  abbrev pub Replied :
      Db → ℕ → User → Bool → List Upload → Time → Result TicketReply × World → Type 0
  Replied d id user is_staff files now (err e, w) = w.db ≡ d
  Replied d id user is_staff files now (ok r, w) = RepliedTo d id user is_staff files now (ok r, w)

  body-Wrote :
      (id : ℕ) (user : User) (is_staff : Bool) (text : List ℕ) (files : List Upload) (now : Time)
      (w : World)
      → length files ≤ 5
      → RepliedTo w.db id user is_staff files now
          (reply_body trim id user is_staff text files now w)
  unfolding reply_body lock_ticket
  body-Wrote id user is_staff text files now w few =
      let Q = RepliedTo w.db id user is_staff files now in
      after_select Q _ _ _ w tt (λ _. tt)
        λ (t : Ticket) found.
          after_raise_if Q (is_closed t.status) _ _ _ (λ _. tt)
            λ live. taken t found live _ (create_reply-Wrote t.id user text files now _)
    where
      taken :
          (t : Ticket)
          → first (is_visible id user.id is_staff) w.db.tickets ≡ some t
          → is_closed t.status ≡ false
          → (o : Result TicketReply × World) → Wrote w.db t.id user files now o
          → RepliedTo w.db id user is_staff files now o
      taken t found live (err e, v) wrote = tt
      taken t found live (ok r, v) wrote = (t, found, live, few, wrote)

  pub reply-Replied :
      (id : ℕ) (user : User) (is_staff : Bool) (body : List ℕ) (files : List Upload) (now : Time)
      (w : World)
      → Replied w.db id user is_staff files now (reply trim id user is_staff body files now w)
  unfolding reply
  reply-Replied id user is_staff body files now w =
      let Q = Replied w.db id user is_staff files now in
      after_lift Q (validate_body trim body) _ w (λ e _. refl)
        λ text _.
          after_raise_if Q (ltb 5 (length files)) _ _ w (λ _. refl)
            λ few.
              last_transaction Q (reply_body trim id user is_staff text files now) w
                (λ e v same. same)
                (λ r v done.
                  rw done at (body-Wrote id user is_staff text files now w (ground arith)))
