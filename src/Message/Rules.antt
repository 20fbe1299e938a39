-- ===== src/Message/Rules.antt =====
-- Rules for what a run of `MessageService` leaves in its history: whether it put something on the
-- queue, and that no call is ever taken out of the history.
use mathlib.Core.Path.{subst}
use spur_messaging.Prelude.{◌≡◌, refl, ◌∙◌, ◌⊎◌, inl, List, [], ◌∷◌, Any}
use spur_messaging.Calls.{Result, ok, Op, ◌>>=◌, pure, bind_cases}
use spur_messaging.Message.Env.{MessageCall, QueueMessage, History, enqueued}

-- The messages that the queue has accepted, the latest first.
abbrev pub queue_of : History → List QueueMessage
queue_of [] = []
queue_of (enqueued q (ok u) ∷ h) = q ∷ queue_of h
queue_of (c ∷ h) = queue_of h

-- The operation only adds to the history.
pub record Keeps {A : Type 0} (m : Op MessageCall A) : Type 1 where
  pub keep : (P : MessageCall → Type 0) (h : History) → Any P h → Any P (m h).1

-- The operation puts nothing on the queue.
pub record IsQuiet {A : Type 0} (m : Op MessageCall A) : Type 0 where
  pub quiet : (h : History) → queue_of (m h).1 ≡ queue_of h

-- The run puts nothing on the queue, or ends as `Q` says, given the queue that it began with.
pub record Yields {A : Type 0} (m : Op MessageCall A) (h : History)
    (Q : List QueueMessage → Result A × History → Type 0) : Type 0 where
  pub yields : (queue_of (m h).1 ≡ queue_of h) ⊎ Q (queue_of h) (m h)

module _ {A B : Type 0} {m : Op MessageCall A} {f : A → Op MessageCall B} where
  pub bind-Keeps : Keeps m → ((a : A) → Keeps (f a)) → Keeps (m >>= f)
  bind-Keeps k l = record {
    keep = λ P h w.
        bind_cases m f h (λ out. Any P out.1) (λ e p. k.keep P h w)
          (λ a p. (l a).keep P (m h).1 (k.keep P h w));
  }

  pub bind-IsQuiet : IsQuiet m → ((a : A) → IsQuiet (f a)) → IsQuiet (m >>= f)
  bind-IsQuiet k l = record {
    quiet = λ h.
        bind_cases m f h (λ out. queue_of out.1 ≡ queue_of h) (λ e p. k.quiet h)
          (λ a p. (l a).quiet (m h).1 ∙ k.quiet h);
  }

module _ {A B : Type 0} {m : Op MessageCall A} (f : A → Op MessageCall B) where
  -- Past a step that queues nothing, a run does what its continuation does.
  pub bind-Yields :
      {h : History} {Q : List QueueMessage → Result B × History → Type 0}
      → IsQuiet m
      → ((a : A) → (m h).0 ≡ ok a → Yields (f a) (m h).1 Q)
      → Yields (m >>= f) h Q
  bind-Yields {h} {Q} k on_ok = record {
    yields =
        bind_cases m f h (λ out. (queue_of out.1 ≡ queue_of h) ⊎ Q (queue_of h) out)
          (λ e p. inl (k.quiet h))
          λ a p.
            subst (λ base. (queue_of (f a (m h).1).1 ≡ base) ⊎ Q base (f a (m h).1)) (k.quiet h)
              (on_ok a p).yields;
  }

module _ {A : Type 0} (a : A) where
  pub pure-Keeps : Keeps (pure {C = MessageCall} a)
  pure-Keeps = record { keep = λ P h w. w }

  pub pure-IsQuiet : IsQuiet (pure {C = MessageCall} a)
  pure-IsQuiet = record { quiet = λ h. refl }
