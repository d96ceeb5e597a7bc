-- ===== src/Webhook.antt =====
-- pkg/webhook: the admission webhooks, which inject the sidecar of the retry handler into pods and
-- validate CXIDriver resources.
pub mod Admission
pub mod Injector
pub mod Validator
pub mod Setup
