-- ===== src/Publisher/Watching/Lost.antt =====
-- pkg/rabbitmq/publisher.go: a connection that is lost before the watcher registers for the notice.
use rabbitmq_go.Base.{
  ℕ, true, false, Option, none, some, List, [], ◌∷◌, ◌≡◌, refl, subst, ap, ◌∙◌, arith, bytes, inl,
  inr, Bool-cases, Option-cases,
}
use rabbitmq_go.Errors.{GoError, text, err}
use rabbitmq_go.Reconnect.Watcher.{Watcher, registering, waiting, is_deaf, notify-is_deaf}
use rabbitmq_go.Publisher.{PooledChannel, Publisher, Client}
use rabbitmq_go.Publisher.Pool.{
  drain, drain_channel_pool, create_confirm_channel, create_pooled_channel, new_channel_or_error,
}
use rabbitmq_go.Publisher.Publish.{Injection}
use rabbitmq_go.Publisher.Connection.{close, close_current}
use rabbitmq_go.Publisher.Watching.{
  Watched, place_registered, notice, close_watched, notify_current, WatchStep, uses, reads, idles,
  leaves_idle, registers, leaves, notices, checks, wakes, gives_up, attempts, loses, shuts,
  WatchReach, here, next,
}
use rabbitmq_go.Publisher.Pool.Filling.{drain_channel_pool_nil, drain_channel_pool_lem}
use rabbitmq_go.Publisher.Connection.Accounts.{close_open, close_closed}
use rabbitmq_go.Publisher.Watching.Frame.{view, view-use}

record Dead (conn : ℕ) (s : Watched) : Type 0 where
  current : s.state.publisher.connection ≡ some conn
  lost : s.state.publisher.open_connection conn ≡ false
  deaf : is_deaf conn s.watcher ≡ true

view-drain : (pool : List PooledChannel) (p : Publisher) → view (drain pool p) ≡ view p
unfolding drain
view-drain [] p = refl
view-drain (pch ∷ rest) p = view-drain rest _

pub view-drain_channel_pool : (p : Publisher) → view (drain_channel_pool p) ≡ view p
view-drain_channel_pool p = elim (Option-cases p.channel_pool) [
  | inl nil ↦ ap view (drain_channel_pool_nil p nil)
  | inr (pool, e) ↦ ap view (drain_channel_pool_lem p pool e) ∙ view-drain pool _
]

close_current-lost :
    (p : Publisher) (conn : ℕ)
    → p.connection ≡ some conn
    → p.open_connection conn ≡ false
    → ((close_current p).connection ≡ some conn) × ((close_current p).open_connection conn ≡ false)
unfolding close_current
close_current-lost p conn e dead = (ground arith, ground arith)

close-lost :
    (p : Publisher) (conn : ℕ)
    → p.connection ≡ some conn
    → p.open_connection conn ≡ false
    → ((close p).connection ≡ some conn) × ((close p).open_connection conn ≡ false)
close-lost p conn e dead = elim (Bool-cases p.closed) [
  | inl shut ↦ rw (close_closed p shut) (e, dead)
  | inr live ↦
      let marked : Publisher = record p { closed = true } in
      let same = view-drain_channel_pool marked in
      rw (close_open p live) (
        close_current-lost (drain_channel_pool marked) conn (ap (λ v. v.0) same ∙ e)
          (ap (λ v. v.1 conn) same ∙ dead))
]

notify_current-is_deaf :
    (conn : ℕ) (p : Publisher) (w : Watcher)
    → is_deaf conn w ≡ true
    → is_deaf conn (notify_current p w) ≡ true
notify_current-is_deaf conn p w h = elim (Option-cases p.connection) [
  | inl nil ↦ rw nil h
  | inr (c, e) ↦ elim (Bool-cases (p.open_connection c)) [
    | inl live ↦ subst (λ v. is_deaf conn v ≡ true) (ground arith) (notify-is_deaf conn c none w h)
    | inr dead ↦ subst (λ v. is_deaf conn v ≡ true) (ground arith) h
  ]
]

close_watched-Dead : (conn : ℕ) (s : Watched) → Dead conn s → Dead conn (close_watched s)
unfolding close_watched
close_watched-Dead conn s v =
    let (current, lost) = close-lost s.state.publisher conn v.current v.lost in
    record {
      current = current;
      lost = lost;
      deaf = elim (Bool-cases s.state.publisher.closed) [
        | inl shut ↦ ground (arith, v.deaf)
        | inr live ↦ ground (arith, notify_current-is_deaf conn s.state.publisher s.watcher v.deaf)
      ];
    }

register-Dead :
    (conn c : ℕ) (s : Watched)
    → s.watcher ≡ registering c
    → Dead conn s
    → Dead conn (record s { watcher = place_registered none c s.state.publisher })
unfolding place_registered
register-Dead conn c s e v = record {
  current = v.current;
  lost = v.lost;
  deaf = ground (arith, v.deaf, v.lost);
}

notice-Dead :
    (conn c : ℕ) (n : Option GoError) (s : Watched)
    → s.watcher ≡ waiting c (some n)
    → Dead conn s
    → Dead conn (notice n s)
unfolding notice
notice-Dead conn c none s e v = record { current = v.current; lost = v.lost; deaf = refl }
notice-Dead conn c (some x) s e v = absurd (ground (arith, v.deaf))

module _ (client : Client) (inject : Injection) where
  Step-Dead :
      {conn : ℕ} {s t : Watched} → Dead conn s → WatchStep client inject none s t → Dead conn t
  Step-Dead {conn} {s} v (uses st u) =
      let same = view-use client inject st u in
      record {
        current = ap (λ x. x.0) same ∙ v.current;
        lost = ap (λ x. x.1 conn) same ∙ v.lost;
        deaf = v.deaf;
      }
  Step-Dead v (reads e) = absurd (ground (arith, v.deaf))
  Step-Dead v (idles e) = absurd (ground (arith, v.deaf))
  Step-Dead v (leaves_idle e d) = absurd (ground (arith, v.deaf))
  Step-Dead {conn} {s} v (registers c e) = register-Dead conn c s e v
  Step-Dead v (leaves c n e d) = record { current = v.current; lost = v.lost; deaf = refl }
  Step-Dead {conn} {s} v (notices c n e) = notice-Dead conn c n s e v
  Step-Dead v (checks e) = absurd (ground (arith, v.deaf))
  Step-Dead v (wakes e) = absurd (ground (arith, v.deaf))
  Step-Dead v (gives_up e d) = absurd (ground (arith, v.deaf))
  Step-Dead v (attempts e) = absurd (ground (arith, v.deaf))
  Step-Dead {conn} {s} v (loses c e live) = record {
    current = v.current;
    lost = ground (arith, v.lost);
    deaf = notify-is_deaf conn c (some e) s.watcher v.deaf;
  }
  Step-Dead {conn} {s} v shuts = close_watched-Dead conn s v

  Reach-Dead :
      {conn : ℕ} {s t : Watched} → Dead conn s → WatchReach client inject none s t → Dead conn t
  Reach-Dead v here = v
  Reach-Dead v (next r st) = Step-Dead (Reach-Dead v r) st

  no_channel :
      (p : Publisher) (conn : ℕ)
      → p.connection ≡ some conn
      → p.open_connection conn ≡ false
      → new_channel_or_error client p ≡ (err (text (bytes "rabbitmq: failed to create channel")), p)
  unfolding new_channel_or_error create_pooled_channel create_confirm_channel
  no_channel p conn e dead = ground arith

  -- If `NotifyClose` on a closed connection only closes the channel that it is given, then a publisher
  -- whose connection is lost before the watcher calls `NotifyClose` on it keeps the closed connection in
  -- every later state, whatever its users call, and can make no new channel.
  pub lost_unwatched :
      (s t : Watched) (conn : ℕ)
      → s.watcher ≡ registering conn
      → s.state.publisher.connection ≡ some conn
      → s.state.publisher.open_connection conn ≡ false
      → WatchReach client inject none s t
      → (t.state.publisher.connection ≡ some conn)
        × (new_channel_or_error client (t.state.publisher)
            ≡ (err (text (bytes "rabbitmq: failed to create channel")), t.state.publisher))
  lost_unwatched s t conn w current lost r =
      let first : Dead conn s = record { current = current; lost = lost; deaf = ground arith } in
      let v = Reach-Dead first r in
      (v.current, no_channel (t.state.publisher) conn v.current v.lost)
