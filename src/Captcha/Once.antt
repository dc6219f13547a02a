-- ===== src/Captcha/Once.antt =====
-- internal/captcha/store.go, `Verify`: which answers are right, and how often.
use levis.Base.{
  List, [], ◌∷◌, ◌∙◌, refl, lookup, ◌+◌, ◌≤◌, ◌≡◌, true, false, String, arith, string_eq,
  lookup-erase, lookup-insert,
}
use levis.Base.Time.{Time}
use text.Mathlib.Text.{◌==◌ as str_eq}
use levis.Captcha.{Items, ttl, issue, verify, evict_locked}

-- An answer: the challenge, what was typed, and when.
abbrev pub Answer : Type 0
Answer = String × String × Time

abbrev pub answer_all : (String → String) → List Answer → Items → Items
answer_all fold [] d = d
answer_all fold ((id, answer, now) ∷ rest) d = answer_all fold rest (verify fold id answer now d).1

-- The answers are to other challenges.
abbrev pub Others : String → List Answer → Type 0
Others id [] = Unit
Others id ((other_, answer, now) ∷ rest) = (str_eq other_ id ≡ false) × Others id rest

lookup-verify :
    (fold : String → String) (id other_ answer : String) (now : Time) (d : Items)
    → str_eq other_ id ≡ false
    → lookup id (verify fold other_ answer now d).1 ≡ lookup id d
unfolding verify
lookup-verify fold id other_ answer now d apart = ground (arith, lookup-erase id other_ d)

lookup-answer_all :
    (fold : String → String) (id : String) (others : List Answer) (d : Items)
    → Others id others
    → lookup id (answer_all fold others d) ≡ lookup id d
lookup-answer_all fold id [] d h = refl
lookup-answer_all fold id ((other_, answer, now) ∷ rest) d (apart, h) =
    lookup-answer_all fold id rest (verify fold other_ answer now d).1 h
    ∙ lookup-verify fold id other_ answer now d apart

module _ (fold : String → String) (id answer : String) (asked : str_eq id "" ≡ false)
    (given : str_eq answer "" ≡ false) where
  -- A challenge that was answered once, rightly or wrongly, is spent: every later answer to it is refused.
  pub verify-verify :
      (again : String) (now later : Time) (d : Items)
      → (verify fold id again later (verify fold id answer now d).1).0 ≡ false
  unfolding verify
  verify-verify again now later d = ground (arith, lookup-erase id id d, string_eq.beq_iff id id)

  -- The right answer within five minutes of a challenge's issue is accepted, whatever the store held, as long as
  -- no other challenge is issued and this one is not answered in between; others may be answered.
  pub verify-issue :
      (code : String) (now later : Time) (d : Items) (others : List Answer)
      → Others id others
      → fold answer ≡ code
      → later ≤ now + ttl
      → (verify fold id answer later (answer_all fold others (issue id code now d))).0 ≡ true
  unfolding verify issue
  verify-issue code now later d others apart right soon =
      let kept = lookup-answer_all fold id others (issue id code now d) apart in
      ground (
        arith,
        kept,
        lookup-insert id id (record { code = code; expires = now + ttl }) (evict_locked now d),
        string_eq.beq_iff id id,
        string_eq.beq_iff (fold answer) code,
      )
