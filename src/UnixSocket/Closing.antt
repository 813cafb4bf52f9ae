-- ===== src/UnixSocket/Closing.antt =====
-- What a closed socket has left behind, and what an open one is registered for.
use edencommon.Common.{
  ℕ, zero, suc, ◌≡◌, refl, ap, ◌∙◌, Bool, true, false, not, Option, List, [], ◌∷◌, ◌++◌, drop, take,
  if◌then◌else◌,
}
use edencommon.UnixSocket.Lifecycle.{
  Socket, Event, fresh, is_empty, shut, close_now, socket_error, close, try_send, send,
  set_receive_callback, clear_receive_callback, receive_ready, timeout_expired, calls,
  receive_error, socket_closed, send_success,
}

-- An event loop's calls of the socket, and those of its user.
pub data Step (s : Socket) : Socket → Type 0 where
  closing : Step s (close s)
  closing_now : Step s (close_now s)
  sending : (callback : Option ℕ) (n : ℕ) (threw : Bool) → Step s (send callback n threw s)
  set_receive : Step s (set_receive_callback s).1
  clear_receive : Step s (clear_receive_callback s).1
  readable : (threw : Bool) → Step s (receive_ready threw s)
  writable : (n : ℕ) (threw : Bool) → Step s (try_send n threw s)
  timed_out : Step s (timeout_expired s)

pub data Reach : Socket → Type 0 where
  start : Reach fresh
  next : {s s' : Socket} → Reach s → Step s s' → Reach s'

pub record Inv (s : Socket) : Type 0 where
  -- What closeNow and socketError check of a socket that is closed.
  pub closed :
      s.is_open ≡ false
      → (s.close_started ≡ true) × (s.receiving ≡ false) × (is_empty s.queue ≡ true)
  pub reading : s.reads ≡ s.receiving
  pub writing : s.writes ≡ not (is_empty s.queue)
  pub timing : s.scheduled ≡ not (is_empty s.queue)
  -- A close that waits for the queue.
  pub draining :
      s.close_started ≡ true → s.is_open ≡ true → (s.receiving ≡ false) × (is_empty s.queue ≡ false)

shut-Inv : (event : Event) (s : Socket) → Inv (shut event s)
unfolding shut
shut-Inv event s = record {
  closed = λ _. (refl, refl, refl);
  reading = refl;
  writing = refl;
  timing = refl;
  draining = λ h g. cc;
}

if-Inv :
    (b : Bool) (x y : Socket) → (b ≡ true → Inv x) → (b ≡ false → Inv y) → Inv (if b then x else y)
if-Inv true x y f g = f refl
if-Inv false x y f g = g refl

close_now-Inv : (s : Socket) → (s.is_open ≡ false → Inv s) → Inv (close_now s)
unfolding close_now
close_now-Inv s v = if-Inv s.is_open (shut socket_closed s) s (λ e. shut-Inv socket_closed s) v

socket_error-Inv : (s : Socket) → (s.is_open ≡ false → Inv s) → Inv (socket_error s)
unfolding socket_error
socket_error-Inv s v = if-Inv s.is_open (shut receive_error s) s (λ e. shut-Inv receive_error s) v

is_empty-drop : (n : ℕ) (q : List (Option ℕ)) → is_empty q ≡ true → is_empty (drop n q) ≡ true
is_empty-drop zero q e = e
is_empty-drop (suc n) [] e = refl
is_empty-drop (suc n) (c ∷ q) e = cc

close-Inv : (s : Socket) → Inv s → Inv (close s)
unfolding close
close-Inv s v =
    if-Inv s.close_started _ _ (λ e. v)
      (λ e.
        if-Inv (is_empty s.queue) _ _ (λ f. close_now-Inv s (λ _. v))
          (λ f.
            if-Inv s.receiving _ _
              (λ g. record {
                closed = λ h. let c = (v.closed h).2 in cc;
                reading = refl;
                writing = v.writing;
                timing = v.timing;
                draining = λ _ _. (refl, f);
              })
              (λ g. record {
                closed = λ h. let c = (v.closed h).2 in cc;
                reading = v.reading;
                writing = v.writing;
                timing = v.timing;
                draining = λ _ _. (g, f);
              })))

-- trySend of a socket whose queue was given, with the invariant but for what it registers.
try_send-Inv :
    (n : ℕ) (threw : Bool) (s : Socket)
    → (s.is_open ≡ false
        → (s.close_started ≡ true)
          × (s.receiving ≡ false)
          × (is_empty s.queue ≡ true)
          × (s.writes ≡ false)
          × (s.scheduled ≡ false))
    → s.reads ≡ s.receiving
    → (s.close_started ≡ true → s.is_open ≡ true → s.receiving ≡ false)
    → Inv (try_send n threw s)
unfolding try_send
try_send-Inv n threw s c r d =
    if-Inv threw _ _
      (λ t. socket_error-Inv _ (λ h. record {
        closed = λ _. ((c h).0, (c h).1, is_empty-drop n s.queue (c h).2);
        reading = r;
        writing = let a = (c h).3 in let b = is_empty-drop n s.queue (c h).2 in rw b a;
        timing = let a = (c h).4 in let b = is_empty-drop n s.queue (c h).2 in rw b a;
        draining = λ _ g. cc;
      }))
      (λ t.
        if-Inv (is_empty (drop n s.queue)) _ _
          (λ e.
            if-Inv s.close_started _ _ (λ f. close_now-Inv _ (λ h. idle e (λ g. cc)))
              (λ f. idle e (λ g. cc)))
          (λ e. record {
            closed = λ h. let b = is_empty-drop n s.queue (c h).2 in cc;
            reading = r;
            writing = rw e refl;
            timing = rw e refl;
            draining = λ f g. (d f g, e);
          }))
  where
    idle :
        is_empty (drop n s.queue) ≡ true
        → ((s.close_started ≡ true) × (s.is_open ≡ true) → ⊥)
        → Inv (record s {
          queue = drop n s.queue;
          events = s.events ++ calls send_success (take n s.queue);
          scheduled = false;
          writes = false;
        })
    idle e never = record {
      closed = λ h. ((c h).0, (c h).1, e);
      reading = r;
      writing = rw e refl;
      timing = rw e refl;
      draining = λ f g. absurd (never (f, g));
    }

is_empty-append : (q : List (Option ℕ)) (c : Option ℕ) → is_empty (q ++ c ∷ []) ≡ false
is_empty-append [] c = refl
is_empty-append (x ∷ q) c = refl

send-Inv :
    (callback : Option ℕ) (n : ℕ) (threw : Bool) (s : Socket)
    → Inv s
    → Inv (send callback n threw s)
unfolding send
send-Inv callback n threw s v =
    if-Inv s.close_started _ _
      (λ e. record {
        closed = v.closed;
        reading = v.reading;
        writing = v.writing;
        timing = v.timing;
        draining = v.draining;
      })
      (λ e.
        if-Inv (is_empty s.queue) _ _
          (λ f.
            try_send-Inv n threw _ (λ h. absurd (let a = (v.closed h).0 in cc)) v.reading (λ g. cc))
          (λ f. record {
            closed = λ h. absurd (let a = (v.closed h).0 in cc);
            reading = v.reading;
            writing = rw (is_empty-append s.queue callback) (v.writing ∙ ap not f);
            timing = rw (is_empty-append s.queue callback) (v.timing ∙ ap not f);
            draining = λ g. cc;
          }))

returns-Inv :
    (b : Bool) (x y : Bool × Socket)
    → (b ≡ true → Inv x.1)
    → (b ≡ false → Inv y.1)
    → Inv (if b then x else y).1
returns-Inv true x y f g = f refl
returns-Inv false x y f g = g refl

Step-Inv : {s s' : Socket} → Step s s' → Inv s → Inv s'
unfolding set_receive_callback clear_receive_callback receive_ready timeout_expired
Step-Inv {s} closing v = close-Inv s v
Step-Inv {s} closing_now v = close_now-Inv s (λ _. v)
Step-Inv {s} (sending callback n threw) v = send-Inv callback n threw s v
Step-Inv {s} set_receive v =
    returns-Inv s.receiving _ _ (λ _. v)
      (λ e.
        returns-Inv s.close_started _ _ (λ _. v)
          (λ f. record {
            closed = λ h. absurd (let g = (v.closed h).0 in cc);
            reading = refl;
            writing = v.writing;
            timing = v.timing;
            draining = λ g. cc;
          }))
Step-Inv {s} clear_receive v =
    returns-Inv s.receiving _ _
      (λ e. record {
        closed = λ h. ((v.closed h).0, refl, (v.closed h).2);
        reading = refl;
        writing = v.writing;
        timing = v.timing;
        draining = λ g h. (refl, (v.draining g h).1);
      })
      (λ _. v)
Step-Inv {s} (readable threw) v = if-Inv threw _ _ (λ _. socket_error-Inv s (λ _. v)) (λ _. v)
Step-Inv {s} (writable n threw) v =
    try_send-Inv n threw s
      (λ h. (
        (v.closed h).0,
        (v.closed h).1,
        (v.closed h).2,
        v.writing ∙ ap not (v.closed h).2,
        v.timing ∙ ap not (v.closed h).2,
      ))
      v.reading (λ f g. (v.draining f g).0)
Step-Inv {s} timed_out v = socket_error-Inv s (λ _. v)

Reach-Inv : {s : Socket} → Reach s → Inv s
Reach-Inv start = record {
  closed = λ h. cc;
  reading = refl;
  writing = refl;
  timing = refl;
  draining = λ h. cc;
}
Reach-Inv (next r step) = Step-Inv step (Reach-Inv r)

-- Whatever is called and in whatever order: the socket is registered for reads where a receive callback
-- is installed, and for writes and with its timeout where the send queue is not empty, and not
-- otherwise; and a socket that is closed has nothing left that closeNow and socketError check: no
-- callback, no queue, no registration and no timeout.
pub Reach-registered :
    {s : Socket}
    → Reach s
    → (s.reads ≡ s.receiving)
      × (s.writes ≡ not (is_empty s.queue))
      × (s.scheduled ≡ not (is_empty s.queue))
      × (s.is_open ≡ false
          → (s.close_started ≡ true)
            × (s.receiving ≡ false)
            × (is_empty s.queue ≡ true)
            × (s.reads ≡ false)
            × (s.writes ≡ false)
            × (s.scheduled ≡ false))
Reach-registered r =
    let v = Reach-Inv r in
    (
      v.reading,
      v.writing,
      v.timing,
      λ h.
          let (a, b, c) = v.closed h in
          (a, b, c, v.reading ∙ b, v.writing ∙ ap not c, v.timing ∙ ap not c),
    )
