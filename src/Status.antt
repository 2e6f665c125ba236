-- ===== src/Status.antt =====
-- `get_status_message` of cmake/src/runtime.cc.
use nx_iree.Base.{Option, none, some, ◌++◌, Text, codes}
use nx_iree.Machine.{Status, status_free, M, pure, ◌>>=◌, ◌>>◌, fail, log, ask, null_deref}
use nx_iree.Api.{Api}

-- A status that could not be formatted leaves a null `status_string`, which is then printed.
unfoldable pub text_of : Option Text → M Text
text_of none = fail null_deref
text_of (some text) = pure (codes "Failed to execute IREE runtime due to error: " ++ text)

-- The message; the status is freed with it.
unfoldable pub get_status_message : Api → Status → M Text
unfolding text_of
get_status_message api status = do
  formatted ← ask (λ t. api.status_to_string t status)
  message ← text_of formatted
  log (status_free status)
  pure message
