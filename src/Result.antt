-- ===== src/Result.antt =====
-- The results of include/pulsar/Result.h, and lib/ResultUtils.h.
use pulsar_client_cpp.Prelude.{Bool, true, false}

pub data Result : Type 0 where
  retryable ok unknown_error invalid_configuration timeout lookup_error connect_error : Result
  read_error authentication_error authorization_error error_getting_authentication_data : Result
  broker_metadata_error broker_persistence_error checksum_error consumer_busy not_connected : Result
  already_closed invalid_message consumer_not_initialized producer_not_initialized : Result
  producer_busy too_many_lookup_request_exception invalid_topic_name invalid_url : Result
  service_unit_not_ready operation_not_supported producer_blocked_quota_exceeded_error : Result
  producer_blocked_quota_exceeded_exception producer_queue_is_full message_too_big : Result
  topic_not_found subscription_not_found consumer_not_found unsupported_version_error : Result
  topic_terminated crypto_error incompatible_schema consumer_assign_error : Result
  cumulative_acknowledgement_not_allowed_error transaction_coordinator_not_found_error : Result
  invalid_txn_status_error not_allowed_error transaction_conflict transaction_not_found : Result
  producer_fenced memory_buffer_is_full interrupted disconnected : Result

-- `isResultRetryable`; its assertion that the result is not `ResultOk` is left to the caller.
unfoldable pub is_result_retryable : Result → Bool
is_result_retryable r = elim r [
  | retryable ↦ true
  | disconnected ↦ true
  | connect_error ↦ false
  | timeout ↦ false
  | authentication_error ↦ false
  | authorization_error ↦ false
  | invalid_url ↦ false
  | invalid_configuration ↦ false
  | incompatible_schema ↦ false
  | topic_not_found ↦ false
  | operation_not_supported ↦ false
  | not_allowed_error ↦ false
  | checksum_error ↦ false
  | crypto_error ↦ false
  | consumer_assign_error ↦ false
  | producer_busy ↦ false
  | consumer_busy ↦ false
  | lookup_error ↦ false
  | too_many_lookup_request_exception ↦ false
  | producer_blocked_quota_exceeded_exception ↦ false
  | producer_blocked_quota_exceeded_error ↦ false
  | _ ↦ true
]
