-- ===== src/Integration/System.antt =====
-- The three services after their start, and a user who asks for an order.
use secure_net.Base.{nat_eq}
use secure_net.Base.Result.{Result}
use secure_net.External.Hex.{Hex}
use secure_net.External.Rustls.{Rustls}
use secure_net.External.Host.{Host}
use secure_net.External.Otel.{Otel}
use secure_net.External.UuidText.{UuidText}
use secure_net.Services.Users
use secure_net.Services.Orders
