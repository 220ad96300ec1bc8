-- ===== src/Writes/Order.antt =====
-- The order of the writes of lib/ClientConnection.cc.
use mathlib.Core.List.{append-nil, append_assoc}
use pulsar_client_cpp.Prelude.{
  ℕ, zero, suc, ◌+◌, ◌-◌, ◌≤◌, ◌<◌, ◌≡◌, refl, sym, subst, ap, ◌∙◌, inl, inr, Bool, true, false,
  List, [], ◌∷◌, ◌++◌, ltb, ◌==◌, if◌then◌else◌, arith, length, length-append, Bool-cases,
  List-cases,
}
use pulsar_client_cpp.Writes.{
  Write, command, message, Writer, new_writer, async_write, send_command, send_message, write_front,
  send_pending_commands, handle_send, Event, commands, messages, ends, closes, step, run,
}

-- What the callers have passed to the connection.
abbrev pub passed : List Event → List Write
passed [] = []
passed (commands cmd ∷ es) = command cmd ∷ passed es
passed (messages args ∷ es) = message args ∷ passed es
passed (ends err ∷ es) = passed es
passed (closes ∷ es) = passed es

-- The writes are one at a time, the others wait in order, and while the connection is open one is on its
-- way whenever there is something to write. Closed or not, what has started is the beginning of all.
pub record IsOrdered (w : Writer) (all : List Write) : Type 0 where
  pub order : w.closed ≡ false → w.started ++ w.pending_write_buffers ≡ all
  pub first : (rest : List Write) × (w.started ++ rest ≡ all)
  pub single : w.on_the_way ≤ 1
  pub sound : w.crashed ≡ false
  pub counted :
      w.closed ≡ false → w.pending_write_operations ≡ w.on_the_way + length w.pending_write_buffers
  pub busy : w.closed ≡ false → w.on_the_way ≡ 0 → w.pending_write_operations ≡ 0
  pub behind : length w.pending_write_buffers + w.on_the_way ≤ w.pending_write_operations

empty : (xs : List Write) → length xs ≡ 0 → xs ≡ []
empty [] h = refl
empty (x ∷ xs) h = absurd (omega (arith, h))

-- An operation goes at once, or to the end of the queue.
abbrev given : Writer → Write → Writer
given w x =
    let w' = record w { pending_write_operations = w.pending_write_operations + 1 } in
    if w.pending_write_operations == 0
    then async_write w' x
    else record w' { pending_write_buffers = w.pending_write_buffers ++ (x ∷ []) }

-- On a closed connection nothing starts any more.
pub closed-IsOrdered :
    (w : Writer) (started all more : List Write)
    → w.closed ≡ true
    → w.started ≡ started
    → ((rest : List Write) × (started ++ rest ≡ all))
    → w.on_the_way ≤ 1
    → w.crashed ≡ false
    → length w.pending_write_buffers + w.on_the_way ≤ w.pending_write_operations
    → IsOrdered w (all ++ more)
closed-IsOrdered w started all more c same (rest, e) single sound behind = record {
  order = λ o. absurd (cc);
  first = (
    rest ++ more,
    ap (λ l. l ++ (rest ++ more)) same
        ∙ sym (append_assoc started rest more)
        ∙ ap (λ l. l ++ more) e,
  );
  single = single;
  sound = sound;
  counted = λ o. absurd (cc);
  busy = λ o. absurd (cc);
  behind = behind;
}

given_closed-IsOrdered :
    (w : Writer) (all : List Write) (x : Write)
    → w.closed ≡ true
    → IsOrdered w all
    → IsOrdered (given w x) (all ++ (x ∷ []))
given_closed-IsOrdered w all x c v =
    closed-IsOrdered (given w x) w.started all (x ∷ []) (ground (arith, c)) (ground (arith, c))
      v.first (ground (arith, c, v.single)) (ground (arith, c, v.sound))
      (ground (arith, c, v.behind, length-append w.pending_write_buffers (x ∷ [])))

given_open-IsOrdered :
    (w : Writer) (all : List Write) (x : Write)
    → w.closed ≡ false
    → IsOrdered w all
    → IsOrdered (given w x) (all ++ (x ∷ []))
given_open-IsOrdered w all x open_ v = elim (Bool-cases (w.pending_write_operations == 0)) [
  | inl e ↦
      rw (e, open_)
        (let now : w.started ++ (x ∷ []) ≡ all ++ (x ∷ []) =
            ap (λ l. l ++ (x ∷ []))
              (sym (append-nil w.started)
                ∙ ap (λ l. w.started ++ l)
                    (sym (empty w.pending_write_buffers (ground (arith, e, v.behind))))
                ∙ v.order open_) in
          record {
            order = λ o.
                ap (λ l. (w.started ++ (x ∷ [])) ++ l)
                  (empty w.pending_write_buffers (ground (arith, e, v.behind)))
                ∙ append-nil (w.started ++ (x ∷ []))
                ∙ now;
            first = ([], append-nil (w.started ++ (x ∷ [])) ∙ now);
            single = ground (arith, e, v.behind);
            sound = v.sound;
            counted = λ o. ground (arith, e, v.behind);
            busy = λ o n. absurd (omega arith);
            behind = ground (arith, e, v.behind);
          })
  | inr e ↦ rw e (
      let later : w.started ++ (w.pending_write_buffers ++ (x ∷ [])) ≡ all ++ (x ∷ []) =
        sym (append_assoc w.started w.pending_write_buffers (x ∷ []))
        ∙ ap (λ l. l ++ (x ∷ [])) (v.order open_) in
      record {
        order = λ o. later;
        first = (w.pending_write_buffers ++ (x ∷ []), later);
        single = v.single;
        sound = v.sound;
        counted = λ o. omega (arith, v.counted o, length-append w.pending_write_buffers (x ∷ []));
        busy = λ o n. absurd (ground (arith, e, v.busy o n));
        behind = omega (arith, v.behind, length-append w.pending_write_buffers (x ∷ []));
      })
]

given-IsOrdered :
    (w : Writer) (all : List Write) (x : Write)
    → IsOrdered w all
    → IsOrdered (given w x) (all ++ (x ∷ []))
given-IsOrdered w all x v = elim (Bool-cases w.closed) [
  | inl c ↦ given_closed-IsOrdered w all x c v
  | inr o ↦ given_open-IsOrdered w all x o v
]

send_message-given : (w : Writer) (args : ℕ) → send_message w args ≡ given w (message args)
unfolding send_message
send_message-given w args = ground arith

write_front-IsOrdered :
    (w : Writer) (queue all : List Write)
    → w.closed ≡ false
    → w.started ++ queue ≡ all
    → w.on_the_way ≡ 0
    → w.crashed ≡ false
    → w.pending_write_operations ≡ length queue
    → 0 < length queue
    → IsOrdered (write_front w queue) all
write_front-IsOrdered w [] all open_ o n c k h = absurd (omega arith)
write_front-IsOrdered w (x ∷ queue) all open_ o n c k h = rw open_ (record {
  order = λ o'. append_assoc w.started (x ∷ []) queue ∙ o;
  first = (queue, append_assoc w.started (x ∷ []) queue ∙ o);
  single = omega arith;
  sound = c;
  counted = λ o'. omega arith;
  busy = λ o' n'. absurd (omega arith);
  behind = omega arith;
})

-- A write ends on a connection that is closed, or closes it.
stopped :
    (w : Writer) (all : List Write)
    → IsOrdered w all
    → 0 < w.on_the_way
    → IsOrdered (record w { closed = true; on_the_way = w.on_the_way - 1 }) all
stopped w all v h = record {
  order = λ o. absurd (cc);
  first = v.first;
  single = omega (arith, v.single);
  sound = v.sound;
  counted = λ o. absurd (cc);
  busy = λ o. absurd (cc);
  behind = omega (arith, v.behind);
}

handle_send-IsOrdered :
    (w : Writer) (all : List Write) (err : Bool)
    → IsOrdered w all
    → 0 < w.on_the_way
    → IsOrdered (handle_send w err) all
unfolding handle_send send_pending_commands
handle_send-IsOrdered w all err v h = elim (Bool-cases w.closed) [
  | inl e ↦ rw e (stopped w all v h)
  | inr e ↦ rw e (elim (Bool-cases err) [
    | inl e' ↦ rw e' (stopped w all v h)
    | inr e' ↦ rw e' (elim (Bool-cases (ltb 0 (w.pending_write_operations - 1))) [
      | inl more ↦ rw more (
          write_front-IsOrdered
            (record w {
              closed = false;
              on_the_way = w.on_the_way - 1;
              pending_write_operations = w.pending_write_operations - 1;
            })
            w.pending_write_buffers all refl (v.order e) (omega (arith, v.single)) v.sound
            (omega (arith, v.counted e, v.single)) (ground (arith, more, v.counted e, v.single, h)))
      | inr last ↦ rw last (record {
        order = λ o. v.order e;
        first = v.first;
        single = omega (arith, v.single);
        sound = v.sound;
        counted = λ o. ground (arith, last, v.counted e, v.single, h);
        busy = λ o n. ground (arith, last, v.counted e, v.single, h);
        behind = ground (arith, last, v.counted e, v.single, h);
      })
    ])
  ])
]

passed_append : (xs ys : List Event) → passed (xs ++ ys) ≡ passed xs ++ passed ys
passed_append [] ys = refl
passed_append (commands cmd ∷ xs) ys = ap (λ l. command cmd ∷ l) (passed_append xs ys)
passed_append (messages args ∷ xs) ys = ap (λ l. message args ∷ l) (passed_append xs ys)
passed_append (ends err ∷ xs) ys = passed_append xs ys
passed_append (closes ∷ xs) ys = passed_append xs ys

step-IsOrdered :
    (w : Writer) (all : List Write) (e : Event)
    → IsOrdered w all
    → IsOrdered (step w e) (all ++ passed (e ∷ []))
unfolding step send_command
step-IsOrdered w all (commands cmd) v = given-IsOrdered w all (command cmd) v
step-IsOrdered w all (messages args) v =
    subst (λ w'. IsOrdered w' (all ++ (message args ∷ []))) (sym (send_message-given w args))
      (given-IsOrdered w all (message args) v)
step-IsOrdered w all (ends err) v =
    subst (λ l. IsOrdered (step w (ends err)) l) (sym (append-nil all))
      (elim (Bool-cases (ltb 0 w.on_the_way)) [
        | inl e ↦ rw e (handle_send-IsOrdered w all err v (ground (arith, e)))
        | inr e ↦ rw e v
      ])
step-IsOrdered w all closes v =
    closed-IsOrdered (record w { closed = true }) w.started all [] refl refl v.first v.single
      v.sound v.behind

run-IsOrdered_lem :
    (es : List Event) (w : Writer) (all : List Write)
    → IsOrdered w all
    → IsOrdered (run w es) (all ++ passed es)
unfolding run
run-IsOrdered_lem [] w all v = subst (λ l. IsOrdered w l) (sym (append-nil all)) v
run-IsOrdered_lem (e ∷ es) w all v =
    subst (λ l. IsOrdered (run (step w e) es) l)
      (append_assoc all (passed (e ∷ [])) (passed es)
        ∙ ap (λ l. all ++ l) (sym (passed_append (e ∷ []) es)))
      (run-IsOrdered_lem es (step w e) (all ++ passed (e ∷ [])) (step-IsOrdered w all e v))

pub run-IsOrdered : (es : List Event) → IsOrdered (run new_writer es) (passed es)
run-IsOrdered es = run-IsOrdered_lem es new_writer [] (record {
  order = λ o. refl;
  first = ([], refl);
  single = omega arith;
  sound = refl;
  counted = λ o. refl;
  busy = λ o n. refl;
  behind = omega arith;
})

-- Writes that end without an error.
abbrev pub endings : ℕ → List Event
endings zero = []
endings (suc n) = ends false ∷ endings n

one_ending :
    (w : Writer) (all : List Write)
    → IsOrdered w all
    → w.closed ≡ false
    → let w' = step w (ends false) in
      (w'.closed ≡ false) × (w'.pending_write_operations ≡ w.pending_write_operations - 1)
unfolding step handle_send send_pending_commands
one_ending w all v o = elim (List-cases w.pending_write_buffers) [
  | inl e ↦ ground (arith, v, v.counted o, v.busy o, o, e)
  | inr (x, xs, e) ↦ ground (arith, v, v.counted o, v.busy o, o, e)
]

endings_lem :
    (n : ℕ) (w : Writer) (all : List Write)
    → IsOrdered w all
    → w.closed ≡ false
    → w.pending_write_operations ≤ n
    → let w' = run w (endings n) in (w'.started ≡ all) × (w'.pending_write_operations ≡ 0)
unfolding run
endings_lem zero w all v o h = (
  sym (append-nil w.started)
      ∙ ap (λ l. w.started ++ l) (sym (empty w.pending_write_buffers (omega (arith, v.behind, h))))
      ∙ v.order o,
  omega arith,
)
endings_lem (suc n) w all v o h =
    let (o', less) = one_ending w all v o in
    let v' =
      subst (λ l. IsOrdered (step w (ends false)) l) (append-nil all)
        (step-IsOrdered w all (ends false) v) in
    endings_lem n (step w (ends false)) all v' o' (omega arith)

-- Whatever was passed to a connection that is still open, once as many writes as there are pending
-- operations have ended without an error, all of it has been written, in order, and nothing is pending.
pub all_written :
    (es : List Event)
    → (run new_writer es).closed ≡ false
    → let w = run new_writer es in
      let w' = run w (endings w.pending_write_operations) in
      (w'.started ≡ passed es) × (w'.pending_write_operations ≡ 0)
all_written es o =
    let w = run new_writer es in
    endings_lem w.pending_write_operations w (passed es) (run-IsOrdered es) o (omega arith)
