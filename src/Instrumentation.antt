-- ===== src/Instrumentation.antt =====
-- pkg/rabbitmq/instrumentation.go: the interface `Instrumentation` and `NopInstrumentation`. A hook gives
-- the callback that ends what it starts; `W` is what an implementation changes. Contexts are left out.
use rabbitmq_go.Base.{ℕ, Option, none, some, [], ◌∷◌, Str}
use rabbitmq_go.Amqp.{Table}
use rabbitmq_go.Consumer.{DeliveryContext, ConsumeResult, started, ended, Trace}
use rabbitmq_go.Publisher.{PublishError}

-- `PublishContext`.
pub record PublishContext : Type 0 where
  pub exchange : Str
  pub routing_key : Str
  pub body_size : ℕ
  pub headers : Table

-- A call of `StartPublish`: the table behind `Headers` after it, and the callback.
pub record Started (W : Type 0) : Type 0 where
  pub world : W
  pub headers : Table
  pub end : Option PublishError → W → W

pub record Hooks (W : Type 0) : Type 0 where
  pub start_publish : PublishContext → W → Started W
  pub start_consume : DeliveryContext → W → W × (ConsumeResult → W → W)

-- `NopInstrumentation`.
unfoldable pub nop_instrumentation : (W : Type 0) → Hooks W
nop_instrumentation W = record {
  start_publish = λ p w. record { world = w; headers = p.headers; end = λ e w'. w' };
  start_consume = λ d w. (w, λ r w'. w');
}

-- What an implementation does in a session of `Consume`, by its trace: the callback that has not been
-- called, if there is one, and the world.
unfoldable pub follow : {W : Type 0} → Hooks W → W → Trace → Option (ConsumeResult → W → W) × W
follow hooks w [] = (none, w)
follow hooks w (started d ∷ h) =
    let (w', end) = hooks.start_consume d (follow hooks w h).1 in (some end, w')
follow hooks w (ended r ∷ h) =
    let (open_callback, w') = follow hooks w h in
    elim open_callback [ none ↦ (none, w') | some end ↦ (none, end r w') ]
follow hooks w (ev ∷ h) = follow hooks w h
