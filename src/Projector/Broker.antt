-- ===== src/Projector/Broker.antt =====
-- What analytics_consumer.go sets the Kafka and the backoff library to, and the errors of a write
-- that it reads. The libraries are not in the repository: these are the values that pass between
-- them and the consumer.
use process_path_management.Prelude.{
  ℕ, ◌-◌, ltb, String, ◌++ˢ◌, Bool, true, false, ◌||◌, List, Option, none, some, if◌then◌else◌,
}

-- kafkago.Message, with its headers as keys and values
pub record Message : Type 0 where
  pub key : String
  pub value : String
  pub headers : List (String × String)

-- the positions that a new consumer group may start at
pub data StartOffset : Type 0 where
  first_offset last_offset : StartOffset

-- kafkago.ReaderConfig
pub record ReaderConfig : Type 0 where
  pub brokers : List String
  pub topic : String
  pub group_id : String
  pub start_offset : StartOffset

-- kafkago.Writer; the timeout is in nanoseconds
pub record Writer : Type 0 where
  pub addr : List String
  pub topic : String
  pub allow_auto_topic_creation : Bool
  pub batch_timeout : ℕ

-- dlqBatchTimeout
abbrev pub dlq_batch_timeout : ℕ
dlq_batch_timeout = 10000000

abbrev pub new_dlq_writer : List String → String → Writer
new_dlq_writer brokers dlq_topic = record {
  addr = brokers;
  topic = dlq_topic;
  allow_auto_topic_creation = true;
  batch_timeout = dlq_batch_timeout;
}

abbrev pub analytics_consumer_group : String
analytics_consumer_group = "process-path-management-analytics"

abbrev pub analytics_dlq_topic_suffix : String
analytics_dlq_topic_suffix = ".dlq"

-- the fields of AnalyticsConsumer that may be nil; a reader is what it was made from
pub record Consumer : Type 0 where
  pub reader : Option ReaderConfig
  pub dlq_writer : Option Writer

abbrev pub new_analytics_consumer : List String → String → Consumer
new_analytics_consumer brokers topic = record {
  reader = some (record {
    brokers = brokers;
    topic = topic;
    group_id = analytics_consumer_group;
    start_offset = first_offset;
  });
  dlq_writer = some (new_dlq_writer brokers (topic ++ˢ analytics_dlq_topic_suffix));
}

abbrev pub source_topic : Consumer → String
source_topic c = elim c.reader [ none ↦ "" | some r ↦ r.topic ]

abbrev pub dlq_topic : Consumer → String
dlq_topic c = source_topic c ++ˢ analytics_dlq_topic_suffix

-- the two options that retryBounded gives to NewExponentialBackOff, in nanoseconds, and the argument
-- of WithMaxRetries
pub record Policy : Type 0 where
  pub initial_interval : ℕ
  pub max_interval : ℕ
  pub max_retries : ℕ

abbrev pub max_analytics_handler_attempts : ℕ
max_analytics_handler_attempts = 3

abbrev pub retry_policy : Policy
retry_policy = record {
  initial_interval = 100000000;
  max_interval = 2000000000;
  max_retries = max_analytics_handler_attempts - 1;
}

-- The error of a write as errors.As and errors.Is read it: a WriteErrors, which has an entry for
-- each message that may be nil, or an error that is none, with whether it is
-- UnknownTopicOrPartition and whether it is LeaderNotAvailable.
mutual
  pub data WriteFailure : Type 0 where
    plain : String → Bool → Bool → WriteFailure
    write_errors : WriteErrors → WriteFailure

  pub data WriteErrors : Type 0 where
    no_entries : WriteErrors
    nil_entry : WriteErrors → WriteErrors
    failed_entry : WriteFailure → WriteErrors → WriteErrors

-- isTopicNotReady, with WriteErrors.Count; `entries_not_ready` is its loop
module _ (count : WriteErrors → ℕ) where
  unfoldable mutual
    pub is_topic_not_ready : WriteFailure → Bool
    is_topic_not_ready (plain text unknown leaderless) = unknown || leaderless
    is_topic_not_ready (write_errors es) = if entries_not_ready es then ltb 0 (count es) else false

    pub entries_not_ready : WriteErrors → Bool
    entries_not_ready no_entries = true
    entries_not_ready (nil_entry es) = entries_not_ready es
    entries_not_ready (failed_entry f es) =
        if is_topic_not_ready f then entries_not_ready es else false
