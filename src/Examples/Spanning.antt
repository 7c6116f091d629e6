-- ===== src/Examples/Spanning.antt =====
-- A publish with the OpenTelemetry bridge.
use rabbitmq_go.Base.{true, false, []}
use rabbitmq_go.Publisher.{Publisher}
use rabbitmq_go.Publisher.Publish.Observed.{publish_observed}
use rabbitmq_go.Otel.Spans.{bridge}
use rabbitmq_go.Otel.Spans.Published.{Spanned, is_some, publish_spans}
use rabbitmq_go.Examples.Observing.{fields, texts, second_passed}
use rabbitmq_go.Examples.Sending.{client, publisher, order}
use rabbitmq_go.Examples.Setup.{quote}

-- The publisher of `Sending`, with an instrumentation.
abbrev observed : Publisher
observed = record publisher { instr_is_nop = false }

publish_spans_example :
    let r = publish_observed (bridge texts quote second_passed fields) client order observed [] in
    Spanned true (is_some r.0) [] r.2
publish_spans_example = publish_spans texts quote second_passed fields client order observed []
