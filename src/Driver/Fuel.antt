-- ===== src/Driver/Fuel.antt =====
-- scrutinizer/src/lib.rs: the results for a crate do not depend on the fuel of the model.
use scrutinizer.Flowistry.{Flowistry}
