-- ===== src/Federation/Examples.antt =====
-- federation/service.go: two regions.
use pmi.Federation.{FederationService, new_federation_service}

abbrev service : FederationService
service = new_federation_service 10
