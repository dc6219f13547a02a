-- ===== src/Store/Tickets.antt =====
-- Tickets, their replies and the attachments of these (internal/model/ticket.go).
use levis.Base.{ℕ, Bool, Option, List, String}
use levis.Base.Int.{ℤ}
use levis.Base.Time.{Time}

pub data TicketStatus : Type 0 where
  ticket_open ticket_answered ticket_closed : TicketStatus

pub record Ticket : Type 0 where
  pub id : ℕ
  pub user_id : ℕ
  pub subject : List ℕ
  pub status : TicketStatus
  pub last_reply_at : Option Time

pub record TicketReply : Type 0 where
  pub id : ℕ
  pub ticket_id : ℕ
  pub user_id : ℕ
  pub is_staff : Bool
  pub body : List ℕ

pub record TicketAttachment : Type 0 where
  pub reply_id : ℕ
  pub ticket_id : ℕ
  pub file_name : List ℕ
  pub size_bytes : ℤ
  pub stored_path : String
