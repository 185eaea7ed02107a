-- ===== src/Delivery.antt =====
-- From one side to the other: what `_post_event` sends is what the callbacks of a proxy are called
-- with, while a resource cannot be called.
use pywayland_i6ie.ProtocolCore.Message.{Message}
use pywayland_i6ie.Dispatcher.{Dispatcher}
