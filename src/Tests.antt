-- ===== src/Tests.antt =====
-- Concrete inputs, and the theorems at them.
mod Samples
mod Stores
mod CompositeTests
mod KeyTests
mod IteratorTests
mod BlockTests
mod PriceTests
mod TxTests
mod MedianTests
mod DelegateTests
mod FeedPairTests
mod ParamTests
mod GovernanceTests
mod AccountTests
mod CdpTests
