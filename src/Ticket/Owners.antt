-- ===== src/Ticket/Owners.antt =====
-- internal/service/ticket.go: what a user can do to the tickets of others.
use levis.Base.{
  ◌==◌, ℕ, ◌≡◌, refl, Bool, false, not, ◌&&◌, none, List, [], ◌∷◌, arith, inl, inr, Bool-cases,
}
use levis.Base.Time.{Time}
use levis.Store.{
  User, TicketStatus, Ticket, TicketReply, Db, first, update, count, Result, ok, err, World, raise,
}
use levis.Store.Steps.{after_statement, after_raise_if}
use levis.Ticket.Replies.{
  Upload, is_visible, same_status, explain, write_status, set_ticket_status, close, reply,
}
use levis.Ticket.Outcomes.{Replied, reply-Replied}

-- The ticket with this id, of this user.
abbrev pub owns : ℕ → ℕ → Ticket → Bool
owns id user_id t = t.id == id && t.user_id == user_id

-- The request fails and changes no table.
abbrev pub IsDenied {ℓ} : {A : Type ℓ} → Db → Result A × World → Type 0
IsDenied d (ok a, w) = ⊥
IsDenied d (err e, w) = w.db ≡ d

first-missed {ℓ} :
    {R : Type ℓ} (p : R → Bool) (rows : List R) → count p rows ≡ 0 → first p rows ≡ none
first-missed p [] h = refl
first-missed p (r ∷ rows) h = elim (Bool-cases (p r)) [
  | inl met ↦ absurd (ground arith)
  | inr missed ↦ rw missed (first-missed p rows (ground arith))
]

update-missed {ℓ} :
    {R : Type ℓ} (p : R → Bool) (f : R → R) (rows : List R)
    → count p rows ≡ 0
    → update p f rows ≡ rows
update-missed p f [] h = refl
update-missed p f (r ∷ rows) h = elim (Bool-cases (p r)) [
  | inl met ↦ absurd (ground arith)
  | inr missed ↦ rw missed (rw (update-missed p f rows (ground arith)) refl)
]

count-narrower {ℓ} :
    {R : Type ℓ} (p q : R → Bool) (rows : List R)
    → count p rows ≡ 0
    → count (λ r. p r && q r) rows ≡ 0
count-narrower p q [] h = refl
count-narrower p q (r ∷ rows) h = ground (arith, count-narrower p q rows (ground arith))

close-IsDenied :
    (id user_id : ℕ) (w : World)
    → count (owns id user_id) w.db.tickets ≡ 0
    → IsDenied w.db (close id user_id false w)
unfolding close set_ticket_status write_status explain raise
close-IsDenied id user_id w foreign =
    let Q : Result (Unit {0}) × World → Type 0 = IsDenied w.db in
    let p : Ticket → Bool =
      λ t. is_visible id user_id false t && not (same_status t.status TicketStatus.ticket_closed) in
    let f : Ticket → Ticket = λ t. record t { status = TicketStatus.ticket_closed } in
    let none_met : count p w.db.tickets ≡ 0 =
      count-narrower (owns id user_id) (λ t. not (same_status t.status TicketStatus.ticket_closed))
        w.db.tickets foreign in
    let same : update p f w.db.tickets ≡ w.db.tickets = update-missed p f w.db.tickets none_met in
    after_statement Q _ _ w refl (
      rw none_met
        (rw same (after_statement Q _ _ _ refl (after_raise_if Q _ _ _ _ (λ _. refl) (λ _. refl)))))

module _ (trim : List ℕ → List ℕ) where
  unseen :
      (d : Db) (id : ℕ) (user : User) (files : List Upload) (now : Time)
      → first (is_visible id user.id false) d.tickets ≡ none
      → (o : Result TicketReply × World) → Replied trim d id user false files now o
      → IsDenied d o
  unseen d id user files now missing (err e, w) same = same
  unseen d id user files now missing (ok r, w) (t, found, open_, few, written) = cc

  -- A user who is no staff and who has no ticket with this id can neither close the ticket nor reply to it:
  -- both requests fail, with every table as it was, whatever the driver fails.
  pub foreign-IsDenied :
      (id : ℕ) (user : User) (body : List ℕ) (files : List Upload) (now : Time) (w : World)
      → count (owns id user.id) w.db.tickets ≡ 0
      → IsDenied w.db (close id user.id false w)
        × IsDenied w.db (reply trim id user false body files now w)
  foreign-IsDenied id user body files now w foreign = (
    close-IsDenied id user.id w foreign,
    unseen w.db id user files now (first-missed _ w.db.tickets foreign) _
        (reply-Replied trim id user false body files now w),
  )
