-- ===== src/Checkout.antt =====
-- core/checkout.py: which checkout a path belongs to, and the listing of a repository.
mod Slug
mod Porcelain
mod Listing
pub mod SlugBounds
pub mod Output
pub mod Printed
pub mod Complete
pub mod Order
pub mod Primary
mod Tests
unfoldable pub use Slug.*
unfoldable pub use Porcelain.*
unfoldable pub use Listing.*
