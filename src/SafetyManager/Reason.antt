-- ===== src/SafetyManager/Reason.antt =====
-- safety_manager_node.py, lines 109 to 127: the reason that is reported for an active MRM.
use huma_ware.Common.{String, Bool, ◌&&◌, not, List, [], ◌∷◌, str_eq, if◌then◌else◌}

-- `watchdog_mrm_reasons[0]` where the list is not empty, and the rest of the chain where it is.
first_or : List String → String → String
first_or [] rest = rest
first_or (reason ∷ _) rest = reason

unfoldable pub select_mrm_reason : Bool → String → Bool → String → List String → String
unfolding first_or
select_mrm_reason parameter_mrm_active parameter_mrm_reason service_mrm_active service_mrm_reason
      watchdog_mrm_reasons =
    if parameter_mrm_active && not (str_eq parameter_mrm_reason "")
    then parameter_mrm_reason
    else if service_mrm_active && not (str_eq service_mrm_reason "")
    then service_mrm_reason
    else first_or watchdog_mrm_reasons (
        if parameter_mrm_active
        then "parameter_mrm_active"
        else if service_mrm_active
        then "service_mrm_active"
        else "")
