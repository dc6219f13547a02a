-- ===== src/Ticket/Replies.antt =====
-- internal/service/ticket.go: what changes tickets. The answer of the disk to each file is a part of the upload;
-- the files on the disk themselves are left out.
use levis.Base.{
  ℕ, ◌+◌, ◌==◌, Bool, true, false, not, ◌&&◌, ◌||◌, some, List, [], ◌∷◌, ◌++◌, String, ltb,
  if◌then◌else◌, length,
}
use levis.Base.Int.{ℤ, pos, ltb_ℤ}
use levis.Base.Time.{Time}
use levis.Store.{
  User, is_admin, TicketStatus, Ticket, TicketReply, TicketAttachment, first, update, count, Error,
  bad_request, not_found, conflict, Result, ok, err, Action, pure, raise, raise_if, lift, when,
  statement, query, select, execute_sql, transaction, ◌>>=◌, ◌>>◌,
}
use levis.Ticket.{safe_file_name, validate_subject, validate_body}

-- What comes of opening a file and of `store.Save`.
pub data SaveAnswer : Type 0 where
  unreadable too_large empty : SaveAnswer
  failing : Error → SaveAnswer
  saved : String → ℤ → SaveAnswer

pub record Upload : Type 0 where
  pub file_name : List ℕ
  pub size : ℤ
  pub answer : SaveAnswer

abbrev pub max_attachments : ℕ
max_attachments = 5

abbrev pub max_attachment_bytes : ℤ
max_attachment_bytes = pos 20971520

abbrev pub same_status : TicketStatus → TicketStatus → Bool
same_status TicketStatus.ticket_open TicketStatus.ticket_open = true
same_status TicketStatus.ticket_answered TicketStatus.ticket_answered = true
same_status TicketStatus.ticket_closed TicketStatus.ticket_closed = true
same_status _ _ = false

abbrev pub is_closed : TicketStatus → Bool
is_closed TicketStatus.ticket_closed = true
is_closed _ = false

-- The ticket that the request may see: staff sees all, a user those of his own.
abbrev pub is_visible : ℕ → ℕ → Bool → Ticket → Bool
is_visible id user_id is_staff t = t.id == id && (is_staff || t.user_id == user_id)

-- `lockTicket`
unfoldable pub lock_ticket : ℕ → ℕ → Bool → Action Ticket
lock_ticket id user_id is_staff =
    select (λ d. first (is_visible id user_id is_staff) d.tickets) (not_found "工单不存在")

-- `setStatus` after an update that met no ticket
unfoldable pub explain : (Ticket → Bool) → String → Action (Unit {0})
explain p message = do
  n ← query (λ d. count p d.tickets)
  raise_if (n == 0) (not_found "工单不存在")
  raise (conflict message)

unfoldable pub write_status : (Ticket → Bool) → TicketStatus → Action ℕ
write_status p status = statement λ d. (
  count p d.tickets,
  record d { tickets = update p (λ t. record t { status = status }) d.tickets },
)

-- `setStatus`
unfoldable pub set_ticket_status : ℕ → ℕ → Bool → TicketStatus → String → Action (Unit {0})
unfolding explain write_status
set_ticket_status id user_id is_staff status message = do
  rows ←
      write_status (λ t. is_visible id user_id is_staff t && not (same_status t.status status))
        status
  if rows == 0 then explain (is_visible id user_id is_staff) message else pure tt

-- `Close`
unfoldable pub close : ℕ → ℕ → Bool → Action (Unit {0})
unfolding set_ticket_status
close id user_id is_staff =
    set_ticket_status id user_id is_staff TicketStatus.ticket_closed "工单已经是关闭状态"

-- `Reopen`
unfoldable pub reopen : ℕ → Action (Unit {0})
unfolding explain write_status
reopen id = do
  rows ← write_status (λ t. t.id == id && is_closed t.status) TicketStatus.ticket_open
  if rows == 0 then explain (λ t. t.id == id) "工单未关闭，无需重新开启" else pure tt

unfoldable pub insert_reply : ℕ → User → List ℕ → Action TicketReply
insert_reply ticket_id user body = statement λ d.
    (let row : TicketReply = record {
      id = d.next_id;
      ticket_id = ticket_id;
      user_id = user.id;
      is_staff = is_admin user.role;
      body = body;
    } in
      (row, record d { ticket_replies = row ∷ d.ticket_replies; next_id = d.next_id + 1 }))

abbrev pub status_after : User → TicketStatus
status_after user =
    if is_admin user.role then TicketStatus.ticket_answered else TicketStatus.ticket_open

abbrev pub note_reply : User → Time → Ticket → Ticket
note_reply user now t = record t { status = status_after user; last_reply_at = some now }

unfoldable pub insert_ticket : User → List ℕ → Time → Action Ticket
insert_ticket user subject now = statement λ d.
    (let row : Ticket = record {
      id = d.next_id;
      user_id = user.id;
      subject = subject;
      status = TicketStatus.ticket_open;
      last_reply_at = some now;
    } in
      (row, record d { tickets = row ∷ d.tickets; next_id = d.next_id + 1 }))

module _ (trim : List ℕ → List ℕ) where
  unfoldable pub attach : ℕ → ℕ → Upload → SaveAnswer → Result TicketAttachment
  attach ticket_id reply_id file unreadable = err (bad_request "无法读取附件「%s」")
  attach ticket_id reply_id file too_large = err (bad_request "附件「%s」超过 %d MiB")
  attach ticket_id reply_id file empty = err (bad_request "附件「%s」内容为空")
  attach ticket_id reply_id file (failing e) = err e
  attach ticket_id reply_id file (saved path size) = ok (record {
    reply_id = reply_id;
    ticket_id = ticket_id;
    file_name = safe_file_name trim file.file_name;
    size_bytes = size;
    stored_path = path;
  })

  abbrev pub add :
      Result TicketAttachment → Result (List TicketAttachment) → Result (List TicketAttachment)
  add (err e) rest = err e
  add (ok a) (err e) = err e
  add (ok a) (ok rest) = ok (a ∷ rest)

  -- `saveAttachments`
  unfoldable pub save_attachments : ℕ → ℕ → List Upload → Result (List TicketAttachment)
  unfolding attach
  save_attachments ticket_id reply_id [] = ok []
  save_attachments ticket_id reply_id (file ∷ files) =
      let rest = save_attachments ticket_id reply_id files in
      if ltb_ℤ max_attachment_bytes file.size
      then err (bad_request "附件「%s」超过 %d MiB")
      else add (attach ticket_id reply_id file file.answer) rest

  -- `createReply`
  unfoldable pub create_reply : ℕ → User → List ℕ → List Upload → Time → Action TicketReply
  unfolding insert_reply save_attachments
  create_reply ticket_id user body files now = do
    row ← insert_reply ticket_id user body
    attachments ← lift (save_attachments ticket_id row.id files)
    when (ltb 0 (length attachments))
        (execute_sql (λ d. record d { ticket_attachments = attachments ++ d.ticket_attachments }))
    execute_sql (λ d. record d {
      tickets = update (λ t. t.id == ticket_id) (note_reply user now) d.tickets;
    })
    pure row

  unfoldable pub reply_body : ℕ → User → Bool → List ℕ → List Upload → Time → Action TicketReply
  unfolding lock_ticket create_reply
  reply_body id user is_staff text files now = do
    t ← lock_ticket id user.id is_staff
    raise_if (is_closed t.status) (conflict "工单已关闭，请重新开启后再回复")
    create_reply t.id user text files now

  -- `Reply`
  unfoldable pub reply : ℕ → User → Bool → List ℕ → List Upload → Time → Action TicketReply
  unfolding validate_body reply_body
  reply id user is_staff body files now = do
    text ← lift (validate_body trim body)
    raise_if (ltb max_attachments (length files)) (bad_request "单次最多上传 %d 个附件")
    transaction (reply_body id user is_staff text files now)

  -- `Create`
  unfoldable pub create : User → List ℕ → List ℕ → List Upload → Time → Action Ticket
  unfolding validate_subject validate_body insert_ticket create_reply
  create user subject body files now = do
    lift (validate_subject (trim subject))
    text ← lift (validate_body trim body)
    raise_if (ltb max_attachments (length files)) (bad_request "单次最多上传 %d 个附件")
    transaction (
        insert_ticket user (trim subject) now >>= λ t.
        create_reply t.id user text files now >>= λ r. pure t)
