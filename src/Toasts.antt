-- ===== src/Toasts.antt =====
-- The messages that a page shows for a while: `toast.success` and `toast.error` of sonner, which
-- the forms of web/src/modules call.
use go_grpc_microservices.Prelude.{String}

pub data Toast : Type 0 where
  success : String → Toast
  error : String → Toast
