-- ===== src/Publisher/Threads/Runs.antt =====
-- pkg/rabbitmq/pool.go and publisher.go: the runs of a publisher whose calls interleave. A run starts with
-- the thread of `NewPublisher`, before `connMu`. Calls begin at any time, and so does the watcher's
-- reconnect; the broker and the network close channels and connections at any time.
use rabbitmq_go.Base.{
  ℕ, ◌+◌, Bool, false, none, List, [], ◌∷◌, ◌++◌, ◌≡◌, tally, tally-pick, arith, inl, refl, subst,
  sym,
}
use rabbitmq_go.Config.{Config}
use rabbitmq_go.Publisher.Threads.{
  Shared, publishing, lending, Pc, entering, draining, awaiting, closing, shut_connection,
  close_channel,
}
use rabbitmq_go.Publisher.Threads.Moves.{Move}
use rabbitmq_go.Publisher.Threads.Counts.{
  holds, in_section, is_retiring, Accounted, same_sum, loses_one-A, shut-A,
}
use rabbitmq_go.Publisher.Threads.Listeners.{
  uses, Unheard, same_uses, shrinks-U, Move-Unheard, uses_bounded,
}
use rabbitmq_go.Publisher.Threads.Counts.Moved.{Move-Accounted}
use rabbitmq_go.Publisher.Threads.Sections.{Guarded, same_counts, keeps-G}
use rabbitmq_go.Publisher.Threads.Sections.Moved.{Move-Guarded}

pub record System : Type 0 where
  pub shared : Shared
  pub threads : List Pc

-- Where the calls of the publisher begin, and the watcher when it has lost the connection.
pub data Entry : Pc → Type 0 where
  publishes : (mandatory : Bool) → Entry (entering (publishing mandatory))
  gets : Entry (entering lending)
  closes : Entry closing
  reconnects : Entry draining

unfoldable pub initial : Config → System
initial cfg = record {
  shared = record {
    cfg = cfg;
    connection = none;
    pool = none;
    retired = [];
    closed = false;
    conn_locked = false;
    open_channel = λ _. false;
    conn_of = λ _. 0;
    listening = λ _. false;
    open_connection = λ _. false;
    next_channel = 0;
    next_connection = 0;
    now = 0;
  };
  threads = awaiting ∷ [];
}

pub data Step (y : System) : System → Type 0 where
  moves :
      (before after new : List Pc) (pc : Pc) (s : Shared)
      → y.threads ≡ before ++ pc ∷ after
      → Move y.shared pc s new
      → Step y (record { shared = s; threads = before ++ (new ++ after) })
  begins : (pc : Pc) → Entry pc → Step y (record y { threads = pc ∷ y.threads })
  loses_channel : (ch : ℕ) → Step y (record y { shared = close_channel ch y.shared })
  loses_connection : (conn : ℕ) → Step y (record y { shared = shut_connection conn y.shared })
  waits : (n : ℕ) → Step y (record y { shared = record (y.shared) { now = n } })

pub data Reach (y : System) : System → Type 0 where
  here : Reach y y
  next : {z w : System} → Reach y z → Step z w → Reach y w

pub record Inv (y : System) : Type 0 where
  pub accounted : (i : ℕ) → Accounted i y.shared (tally (holds i) y.threads)
  pub unheard : (i : ℕ) → Unheard i y.shared (tally (uses i) y.threads)
  pub guarded : Guarded y.shared (tally in_section y.threads) (tally is_retiring y.threads)

Entry-clear :
    {pc : Pc}
    → Entry pc
    → ((i : ℕ) → holds i pc ≡ false)
      × ((i : ℕ) → uses i pc ≡ false)
      × (in_section pc ≡ false)
      × (is_retiring pc ≡ false)
Entry-clear (publishes b) = ((λ i. refl), (λ i. refl), refl, refl)
Entry-clear gets = ((λ i. refl), (λ i. refl), refl, refl)
Entry-clear closes = ((λ i. refl), (λ i. refl), refl, refl)
Entry-clear reconnects = ((λ i. refl), (λ i. refl), refl, refl)

module _ (y : System) (before after new : List Pc) (pc : Pc) (s : Shared)
    (at : y.threads ≡ before ++ pc ∷ after) (m : Move y.shared pc s new) where
  parted : (p : Pc → Bool) → tally p y.threads ≡ tally p (pc ∷ []) + tally p (before ++ after)
  parted p =
      subst (λ l. tally p l ≡ tally p (pc ∷ []) + tally p (before ++ after)) (sym at)
        (tally-pick p before (pc ∷ []) after)

  moved-Inv : Inv y → Inv (record { shared = s; threads = before ++ (new ++ after) })
  moved-Inv v = record {
    accounted = λ i.
        same_sum
          (Move-Accounted i (tally (holds i) (before ++ after)) m
            (same_sum (v.accounted i) (parted (holds i))))
          (sym (tally-pick (holds i) before new after));
    unheard = λ i.
        same_uses
          (Move-Unheard i (tally (holds i) (before ++ after)) (tally (uses i) (before ++ after)) m
            (uses_bounded i (before ++ after)) (same_sum (v.accounted i) (parted (holds i)))
            (same_uses (v.unheard i) (parted (uses i))))
          (sym (tally-pick (uses i) before new after));
    guarded =
        same_counts
          (Move-Guarded (tally in_section (before ++ after)) (tally is_retiring (before ++ after)) m
            (same_counts v.guarded (parted in_section) (parted is_retiring)))
          (sym (tally-pick in_section before new after))
          (sym (tally-pick is_retiring before new after));
  }

Step-Inv : {y z : System} → Step y z → Inv y → Inv z
Step-Inv {y} (moves before after new pc s at m) v = moved-Inv y before after new pc s at m v
Step-Inv {y} (begins pc b) v =
    let (free, useless, out, calm) = Entry-clear b in
    record {
      accounted = λ i. same_sum (v.accounted i) (ground (arith, free i));
      unheard = λ i. same_uses (v.unheard i) (ground (arith, useless i));
      guarded = same_counts v.guarded (ground (arith, out)) (ground (arith, calm));
    }
Step-Inv {y} (loses_channel ch) v = record {
  accounted = λ i. loses_one-A i (tally (holds i) y.threads) y.shared ch (v.accounted i);
  unheard = λ i. shrinks-U i _ _ refl refl (omega arith) (v.unheard i);
  guarded = keeps-G _ _ refl refl refl refl v.guarded;
}
Step-Inv {y} (loses_connection conn) v = record {
  accounted = λ i. shut-A i (tally (holds i) y.threads) y.shared conn (v.accounted i);
  unheard = λ i. shrinks-U i _ _ refl refl (omega arith) (v.unheard i);
  guarded = keeps-G _ _ refl refl refl refl v.guarded;
}
Step-Inv {y} (waits n) v = record {
  accounted = λ i. record {
    placed = (v.accounted i).placed;
    reachable = (v.accounted i).reachable;
    carried = (v.accounted i).carried;
  };
  unheard = λ i. shrinks-U i _ _ refl refl (omega arith) (v.unheard i);
  guarded = keeps-G _ _ refl refl refl refl v.guarded;
}

initial-Inv : (cfg : Config) → Inv (initial cfg)
unfolding initial
initial-Inv cfg = record {
  accounted = λ i. record { placed = ground arith; reachable = omega arith; carried = refl };
  unheard = λ i. record { unheard = refl; known = omega arith };
  guarded = record { bounded = ground arith; locked = refl; emptied = inl refl };
}

pub Reach-Inv : (cfg : Config) {y : System} → Reach (initial cfg) y → Inv y
Reach-Inv cfg here = initial-Inv cfg
Reach-Inv cfg (next path step) = Step-Inv step (Reach-Inv cfg path)
