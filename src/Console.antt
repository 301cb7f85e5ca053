-- ===== src/Console.antt =====
-- The lines that the program prints at run time: by the sinks (src/sink/), the dead letter queue
-- (src/resiliency/dlq.rs) and the tasks (src/main.rs). A line is its arguments; `text` is its text.
use caminus.Prelude.{ℕ, Option, ◌∷◌, ◌++◌}
use caminus.Text.Defs.{Text, codes}
use caminus.Text.Decimal.{to_string}

pub data Line : Type 0 where
  -- the words for the event, its id and its partition
  assigned : Text → Text → ℕ → Line
  -- topic, brokers and size
  kafka_sent : Text → Text → ℕ → Line
  console : Text → Line
  -- id, table, cluster, endpoint and size
  forwarded : Text → Text → Text → Text → ℕ → Line
  -- topic, step, retries, reason and payload
  dead_letter : Text → Text → ℕ → Text → Text → Line
  -- transaction and number of mutations
  commit_received : Option Text → ℕ → Line
  -- transaction
  low_watermark : Option Text → Line
  high_watermark : Line
  -- source and error
  stream_error : Text → Text → Line
  start_failed : Text → Text → Line

-- `{}` of a text is the text; `{:?}` of a transaction is a parameter.
unfoldable pub text : (Option Text → Text) → Line → Text
text debug (assigned words id partition) =
    codes "[ROUTER] "
    ++ (words ++ (b' ' ∷ (id ++ (codes " assigned to partition " ++ to_string partition))))
text debug (kafka_sent topic brokers size) =
    codes "[KAFKA SINK] Sent to topic '"
    ++ (topic
        ++ (codes "' on brokers '"
            ++ (brokers ++ (codes "' - Payload size: " ++ (to_string size ++ codes " bytes")))))
text debug (console serialized) = codes "[CONSOLE SINK] " ++ serialized
text debug (forwarded id table cluster endpoint size) =
    codes "[CLUSTER FORWARDER] Forwarding change event "
    ++ (id
        ++ (codes " ("
            ++ (table
                ++ (codes ") to remote cluster '"
                    ++ (cluster
                        ++ (codes "' at endpoint '"
                            ++ (endpoint
                                ++ (codes "' (" ++ (to_string size ++ codes " bytes)")))))))))
text debug (dead_letter topic step retries reason payload) =
    codes "[DEAD LETTER QUEUE] Poison pill routed to '"
    ++ (topic
        ++ (codes "' | Step: "
            ++ (step
                ++ (codes " | Retries: "
                    ++ (to_string retries
                        ++ (codes " | Reason: "
                            ++ (reason ++ (codes " | Event Payload: " ++ payload))))))))
text debug (commit_received transaction count) =
    codes "[PG Source] Received COMMIT for transaction "
    ++ (debug transaction ++ (codes ". Flushing " ++ (to_string count ++ codes " mutations...")))
text debug (low_watermark transaction) =
    codes "[Watermark Engine] Low watermark reached for transaction " ++ debug transaction
text debug high_watermark =
    codes "[Watermark Engine] High watermark reached. Reconciled snapshot chunk ready."
text debug (stream_error source error) =
    b'[' ∷ (source ++ (codes "] Ingestion stream error: " ++ error))
text debug (start_failed source error) =
    b'[' ∷ (source ++ (codes "] Failed to start stream: " ++ error))
