-- ===== src/Gate/Errors.antt =====
-- src/gate/error.go and src/common/xrest/error.go: the errors that a request is answered with.
use swifty.Base.{ℕ, zero, suc, String}
use swifty.Effects.{Error, not_found, duplicate, failure}

pub record ReqErr : Type 0 where
  pub code : ℕ
  pub message : String

abbrev pub gate_gen_err : ℕ
gate_gen_err = 1

abbrev pub gate_bad_request : ℕ
gate_bad_request = 2

abbrev pub gate_db_error : ℕ
gate_db_error = 4

abbrev pub gate_duplicate : ℕ
gate_duplicate = 5

abbrev pub gate_not_found : ℕ
gate_not_found = 6

abbrev pub gate_not_avail : ℕ
gate_not_avail = 8

abbrev pub gate_limit_hit : ℕ
gate_limit_hit = 9

-- err.Error().
abbrev pub error_text : Error → String
error_text not_found = "not found"
error_text duplicate = "duplicate key"
error_text (failure s) = s

-- The table gateErrMsg, by code; a code that it does not list has no message.
unfoldable pub gate_err_msg : ℕ → String
gate_err_msg (suc zero) = "Unknown error"
gate_err_msg (suc (suc zero)) = "Error parsing request parameters"
gate_err_msg (suc (suc (suc zero))) = "Error writing response"
gate_err_msg (suc (suc (suc (suc zero)))) = "Database request failed"
gate_err_msg (suc (suc (suc (suc (suc zero))))) = "ID already exists"
gate_err_msg (suc (suc (suc (suc (suc (suc zero)))))) = "ID not found"
gate_err_msg (suc (suc (suc (suc (suc (suc (suc zero))))))) = "Files access failed"
gate_err_msg (suc (suc (suc (suc (suc (suc (suc (suc zero)))))))) = "Operation not (yet) available"
gate_err_msg (suc (suc (suc (suc (suc (suc (suc (suc (suc zero))))))))) = "Resource limitation hit"
gate_err_msg _ = ""

abbrev pub gate_err_c : ℕ → ReqErr
gate_err_c code = record { code = code; message = gate_err_msg code }

abbrev pub gate_err_e : ℕ → Error → ReqErr
gate_err_e code e = record { code = code; message = error_text e }

abbrev pub gate_err_m : ℕ → String → ReqErr
gate_err_m code msg = record { code = code; message = msg }

abbrev pub gate_err_d : Error → ReqErr
gate_err_d not_found = gate_err_c gate_not_found
gate_err_d duplicate = gate_err_c gate_duplicate
gate_err_d (failure s) = gate_err_e gate_db_error (failure s)
