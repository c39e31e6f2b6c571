-- ===== src/Provider/AnnotationNames.antt =====
-- pkg/provider/provider.go: the names of the annotations of clusters, endpoints and listeners.
use bent.Shared.{String}

abbrev pub annotation_health_check_path : String
annotation_health_check_path = "healthcheck.path"

abbrev pub annotation_health_interval : String
annotation_health_interval = "healthcheck.interval"

abbrev pub annotation_health_cache_duration : String
annotation_health_cache_duration = "healthcheck.cache"

abbrev pub annotation_health_timeout : String
annotation_health_timeout = "healthcheck.timeout"

abbrev pub annotation_health_port : String
annotation_health_port = "healthcheck.port"

abbrev pub annotation_health_expected_status : String
annotation_health_expected_status = "healthcheck.expected-status"

abbrev pub annotation_cb_max_conn : String
annotation_cb_max_conn = "circuit-breaker.max-connections"

abbrev pub annotation_cb_max_pending : String
annotation_cb_max_pending = "circuit-breaker.max-pending"

abbrev pub annotation_cb_max_requests : String
annotation_cb_max_requests = "circuit-breaker.max-requests"

abbrev pub annotation_cb_max_retries : String
annotation_cb_max_retries = "circuit-breaker.max-retries"

abbrev pub annotation_endpoint_weight : String
annotation_endpoint_weight = "endpoint.weight"

abbrev pub annotation_fault_inject : String
annotation_fault_inject = "fault.inject"

abbrev pub annotation_fault_delay_percent : String
annotation_fault_delay_percent = "fault.delay.percent"

abbrev pub annotation_fault_delay_duration : String
annotation_fault_delay_duration = "fault.delay.duration"

abbrev pub annotation_fault_abort_percent : String
annotation_fault_abort_percent = "fault.abort.percent"

abbrev pub annotation_fault_abort_code : String
annotation_fault_abort_code = "fault.abort.code"
