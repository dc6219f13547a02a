-- ===== src/Ticket/Tests.antt =====
-- An attachment that tries to leave its folder, a reply to it, and a stranger.
use levis.Base.{ℕ, ◌==◌, ◌≡◌, refl, List, [], ◌∷◌, arith, if◌then◌else◌}
use levis.Base.{none, true, false}
use levis.Base.Int.{pos}
use levis.Store.{
  User, Role, Ticket, TicketStatus, RefundStatus, World, select, statement, transaction, lift,
  raise_if, when, pure, ◌>>=◌,
}
use levis.Store.Samples.{sample_db, calm}
use levis.Ticket.Replies.{Upload, SaveAnswer, close, reply}
use levis.Ticket.Owners.{IsDenied, foreign-IsDenied}
use levis.Ticket.{safe_file_name, attachment}

-- Spaces in front are dropped.
abbrev trim : List ℕ → List ℕ
trim [] = []
trim (c ∷ cs) = if c == 32 then trim cs else c ∷ cs

-- `..\ "a`
abbrev sly : List ℕ
sly = 46 ∷ 46 ∷ 92 ∷ 32 ∷ 34 ∷ 97 ∷ []

shown : safe_file_name trim sly ≡ 97 ∷ []
unfolding safe_file_name
shown = refl

up : safe_file_name trim (46 ∷ 46 ∷ 47 ∷ 46 ∷ 46 ∷ []) ≡ attachment
unfolding safe_file_name
up = refl

abbrev ann : User
ann = record { id = 2; role = Role.user; active = true; balance_cents = pos 0 }

abbrev eve : User
eve = record { id = 3; role = Role.user; active = true; balance_cents = pos 0 }

abbrev asked : Ticket
asked = record {
  id = 9;
  user_id = 2;
  subject = 97 ∷ [];
  status = TicketStatus.ticket_answered;
  last_reply_at = none;
}

abbrev desk : World
desk = calm (record (sample_db RefundStatus.pending) { tickets = asked ∷ [] })

abbrev picture : Upload
picture = record { file_name = sly; size = pos 10; answer = SaveAnswer.saved "tickets/x" (pos 10) }

ok_reply :
    (reply trim 9 ann false (98 ∷ []) (picture ∷ []) 70 desk).1.db.ticket_attachments
    ≡ record {
      reply_id = 100;
      ticket_id = 9;
      file_name = 97 ∷ [];
      size_bytes = pos 10;
      stored_path = "tickets/x";
    }
      ∷ []
unfolding reply safe_file_name select statement transaction lift raise_if when pure ◌>>=◌
ok_reply = refl

foreign-IsDenied_example :
    IsDenied desk.db (close 9 3 false desk)
    × IsDenied desk.db (reply trim 9 eve false (98 ∷ []) [] 70 desk)
foreign-IsDenied_example = foreign-IsDenied trim 9 eve (98 ∷ []) [] 70 desk (ground arith)
