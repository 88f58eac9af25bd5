-- ===== src/ReliableSender/Flush.antt =====
-- What `keep_alive` of network/src/reliable_sender.rs does when it empties the buffer.
use sailfish_test.Prelude.{
  ◌≡◌, refl, ◌∙◌, sym, ap, inl, inr, List, [], ◌∷◌, ◌++◌, append_assoc, Bool, true, false, arith,
  if◌then◌else◌, retain, retain-append, Bool-cases,
}
use sailfish_test.ReliableSender.{InnerMessage, Connection, Handler, is_open, disconnect, flush}

-- As lists, up to those that were cancelled.
abbrev pub Alike : List Handler → List InnerMessage → List InnerMessage → Type 0
Alike closed xs ys = retain (is_open closed) xs ≡ retain (is_open closed) ys

pub Alike-append :
    (closed : List Handler) (xs ys zs : List InnerMessage)
    → Alike closed ys zs
    → Alike closed (xs ++ ys) (xs ++ zs)
Alike-append closed xs ys zs h =
    retain-append (is_open closed) xs ys
    ∙ ap (λ l. retain (is_open closed) xs ++ l) h
    ∙ sym (retain-append (is_open closed) xs zs)

pub Alike-retain :
    (closed : List Handler) (xs : List InnerMessage) → Alike closed (retain (is_open closed) xs) xs
Alike-retain closed [] = refl
Alike-retain closed (x ∷ xs) = elim (Bool-cases (is_open closed x)) [
  | inl kept ↦ rw (kept, kept) (ap (λ l. x ∷ l) (Alike-retain closed xs))
  | inr gone ↦ rw gone (Alike-retain closed xs)
]

pub Alike-more :
    (h : Handler) (closed : List Handler) (xs : List InnerMessage)
    → retain (is_open (h ∷ closed)) (retain (is_open closed) xs) ≡ retain (is_open (h ∷ closed)) xs
Alike-more h closed [] = refl
Alike-more h closed (x ∷ xs) = elim (Bool-cases (is_open closed x)) [
  | inl kept ↦ rw kept (elim (Bool-cases (is_open (h ∷ closed) x)) [
    | inl still ↦ rw still (ap (λ l. x ∷ l) (Alike-more h closed xs))
    | inr now ↦ rw now (Alike-more h closed xs)
  ])
  | inr gone ↦
      let gone' : is_open (h ∷ closed) x ≡ false = ground (arith, gone) in
      rw (gone, gone') (Alike-more h closed xs)
]

-- What emptying a buffer does: nothing is lost and nothing changes its place.
pub record IsFlushed (buffer : List InnerMessage) (c r : Connection) : Type 0 where
  pub first : r.retry_delay ≡ c.retry_delay
  pub delay : r.delay ≡ c.delay
  pub closed : r.closed ≡ c.closed
  pub acked : r.acked ≡ c.acked
  pub alike : Alike c.closed (r.pending_replies ++ r.buffer) (c.pending_replies ++ buffer)

pub if-IsFlushed :
    (buffer : List InnerMessage) (c : Connection) (b : Bool) (r r' : Connection)
    → IsFlushed buffer c r
    → (b ≡ false → IsFlushed buffer c r')
    → IsFlushed buffer c (if b then r else r')
if-IsFlushed buffer c true r r' h k = h
if-IsFlushed buffer c false r r' h k = k refl

pub sent-IsFlushed :
    (m : InnerMessage) (rest : List InnerMessage) (c r : Connection)
    → IsFlushed rest (record c { pending_replies = c.pending_replies ++ m ∷ [] }) r
    → IsFlushed (m ∷ rest) c r
sent-IsFlushed m rest c r h = record {
  first = h.first;
  delay = h.delay;
  closed = h.closed;
  acked = h.acked;
  alike = h.alike ∙ ap (retain (is_open c.closed)) (append_assoc c.pending_replies (m ∷ []) rest);
}

pub skipped-IsFlushed :
    (m : InnerMessage) (rest : List InnerMessage) (c r : Connection)
    → IsFlushed rest c r
    → is_open c.closed m ≡ false
    → IsFlushed (m ∷ rest) c r
skipped-IsFlushed m rest c r h gone = record {
  first = h.first;
  delay = h.delay;
  closed = h.closed;
  acked = h.acked;
  alike = h.alike ∙ Alike-append c.closed c.pending_replies rest (m ∷ rest) (rw gone refl);
}

pub failed-IsFlushed :
    (buffer : List InnerMessage) (c : Connection)
    → IsFlushed buffer c (disconnect (record c { buffer = buffer }))
unfolding disconnect
failed-IsFlushed buffer c = record {
  first = refl;
  delay = refl;
  closed = refl;
  acked = refl;
  alike = refl;
}

pub flush-IsFlushed :
    (buffer : List InnerMessage) (results : List Bool) (c : Connection)
    → IsFlushed buffer c (flush buffer results c)
unfolding flush
flush-IsFlushed [] results c = record {
  first = refl;
  delay = refl;
  closed = refl;
  acked = refl;
  alike = refl;
}
flush-IsFlushed (m ∷ rest) [] c =
    if-IsFlushed (m ∷ rest) c (is_open c.closed m) _ _
      (sent-IsFlushed m rest c _ (flush-IsFlushed rest [] _))
      (skipped-IsFlushed m rest c _ (flush-IsFlushed rest [] c))
flush-IsFlushed (m ∷ rest) (true ∷ later) c =
    if-IsFlushed (m ∷ rest) c (is_open c.closed m) _ _
      (sent-IsFlushed m rest c _ (flush-IsFlushed rest later _))
      (skipped-IsFlushed m rest c _ (flush-IsFlushed rest (true ∷ later) c))
flush-IsFlushed (m ∷ rest) (false ∷ later) c =
    if-IsFlushed (m ∷ rest) c (is_open c.closed m) _ _ (failed-IsFlushed (m ∷ rest) c)
      (skipped-IsFlushed m rest c _ (flush-IsFlushed rest (false ∷ later) c))
